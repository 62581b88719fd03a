-- ===== src/Store/Format.antt =====
-- The two constructors of `BlockStore`: for formatting, and from the manifest of an album.
use album_fs.Common.{
  ℕ, ◌+◌, ◌*◌, ◌≡◌, refl, Bool, true, false, List, [], ◌∷◌, length, length-replicate, Option, none,
  some, replicate, ◌==◌, All, arith,
}
use album_fs.Fs.{pb}
use album_fs.Superblock.{CarrierRange}
use album_fs.Store.{CarrierSlot, BlockStore, Libraries}
use album_fs.Codec.{Separate}
use album_fs.Store.Slots.{Contiguous, Apart, IsReady}
use album_fs.Store.Reads.{IsValid}

abbrev pub sum_blocks : List CarrierRange → ℕ
sum_blocks [] = 0
sum_blocks (range ∷ rest) = range.block_count + sum_blocks rest

module _ {FilePath : Type 0} where
  -- The slots, one for each path that has a range.
  unfoldable pub new_slots : List FilePath → List CarrierRange → List (CarrierSlot FilePath)
  new_slots [] ranges = []
  new_slots (path ∷ paths) [] = []
  new_slots (path ∷ paths) (range ∷ ranges) =
      record {
        path = path;
        chunk_index = range.chunk_index;
        is_primary = range.chunk_index == 0;
        block_start = range.block_start;
        block_count = range.block_count;
        buffer = some (replicate (range.block_count * pb) 0);
        dirty = true;
      }
      ∷ new_slots paths ranges

  unfoldable pub manifest_slots :
      List (FilePath × Bool) → List CarrierRange → List (CarrierSlot FilePath)
  manifest_slots [] ranges = []
  manifest_slots (path ∷ paths) [] = []
  manifest_slots (path ∷ paths) (range ∷ ranges) =
      record {
        path = path.0;
        chunk_index = range.chunk_index;
        is_primary = path.1;
        block_start = range.block_start;
        block_count = range.block_count;
        buffer = none;
        dirty = false;
      }
      ∷ manifest_slots paths ranges

  -- The keys are the cipher's and the order's.
  unfoldable pub with_keys :
      List (CarrierSlot FilePath) → ℕ → Option (List ℕ × List ℕ) → BlockStore FilePath
  with_keys slots total (some (cipher, order)) = record {
    carriers = slots;
    total_blocks = total;
    encrypted = true;
    cipher = some cipher;
    order_key = some order;
  }
  with_keys slots total none = record {
    carriers = slots;
    total_blocks = total;
    encrypted = false;
    cipher = none;
    order_key = none;
  }

  unfoldable pub new_for_format :
      List FilePath → List CarrierRange → Option (List ℕ × List ℕ) → BlockStore FilePath
  new_for_format paths ranges keys = with_keys (new_slots paths ranges) (sum_blocks ranges) keys

  unfoldable pub from_manifest :
      List (FilePath × Bool) → List CarrierRange → Option (List ℕ × List ℕ) → BlockStore FilePath
  from_manifest paths ranges keys = with_keys (manifest_slots paths ranges) (sum_blocks ranges) keys

-- Each range begins where the one before it ends.
abbrev pub Consecutive : ℕ → List CarrierRange → Type 0
Consecutive start [] = Unit {0}
Consecutive start (range ∷ rest) =
    (range.block_start ≡ start) × Consecutive (start + range.block_count) rest

module _ {FilePath : Type 0} where
  new_slots-Contiguous :
      (paths : List FilePath) (ranges : List CarrierRange) (start total : ℕ)
      → length paths ≡ length ranges
      → total ≡ start + sum_blocks ranges
      → Consecutive start ranges
      → Contiguous start (new_slots paths ranges) total
  unfolding new_slots
  new_slots-Contiguous [] [] start total same e c = omega (arith, e)
  new_slots-Contiguous [] (range ∷ ranges) start total same e c = absurd (omega (arith, same))
  new_slots-Contiguous (path ∷ paths) [] start total same e c = absurd (omega (arith, same))
  new_slots-Contiguous (path ∷ paths) (range ∷ ranges) start total same e c = (
    c.0,
    new_slots-Contiguous paths ranges (start + range.block_count) total (omega (arith, same))
        (omega (arith, e)) c.1,
  )

-- No path stands twice, and none is the temporary file of another.
abbrev pub Distinct : {FilePath : Type 0} → (FilePath → FilePath) → List FilePath → Type 0
Distinct temporary [] = Unit {0}
Distinct temporary (path ∷ rest) =
    All (λ other. Separate temporary other path) rest × Distinct temporary rest

module _ {FilePath : Type 0} (temporary : FilePath → FilePath) where
  new_slots-others :
      (path : FilePath) (paths : List FilePath) (ranges : List CarrierRange)
      → All (λ other. Separate temporary other path) paths
      → All
          (λ (slot : CarrierSlot FilePath). Separate temporary slot.path path)
          (new_slots paths ranges)
  unfolding new_slots
  new_slots-others path [] ranges h = tt
  new_slots-others path (p ∷ paths) [] h = tt
  new_slots-others path (p ∷ paths) (range ∷ ranges) h =
      (h.0, new_slots-others path paths ranges h.1)

  new_slots-Apart :
      (paths : List FilePath) (ranges : List CarrierRange)
      → Distinct temporary paths
      → Apart temporary (new_slots paths ranges)
  unfolding new_slots
  new_slots-Apart [] ranges h = tt
  new_slots-Apart (p ∷ paths) [] h = tt
  new_slots-Apart (p ∷ paths) (range ∷ ranges) h =
      (new_slots-others p paths ranges h.0, new_slots-Apart paths ranges h.1)

module _ {FilePath Disk : Type 0} (l : Libraries FilePath Disk) where
  new_slots-IsReady :
      (paths : List FilePath) (ranges : List CarrierRange) (encrypted : Bool)
      (order_key : Option (List ℕ)) (disk : Disk)
      → All (IsReady l encrypted order_key disk) (new_slots paths ranges)
  unfolding new_slots
  new_slots-IsReady [] ranges encrypted order_key disk = tt
  new_slots-IsReady (path ∷ paths) [] encrypted order_key disk = tt
  new_slots-IsReady (path ∷ paths) (range ∷ ranges) encrypted order_key disk = (
    (
      replicate (range.block_count * pb) 0,
      refl,
      length-replicate {A = ℕ} (range.block_count * pb) 0,
    ),
    new_slots-IsReady paths ranges encrypted order_key disk,
  )

  -- The store that formatting starts from is well formed, with keys and without, where there is a path
  -- for each range, no path stands twice or is the temporary file of another, and the ranges follow each other from block 0 on.
  pub new_for_format-IsValid :
      (paths : List FilePath) (ranges : List CarrierRange) (keys : Option (List ℕ × List ℕ))
      (disk : Disk) (draws : ℕ)
      → length paths ≡ length ranges
      → Distinct l.carrier_codec.temporary paths
      → Consecutive 0 ranges
      → IsValid l (record { store = new_for_format paths ranges keys; disk = disk; draws = draws })
  unfolding new_for_format with_keys
  new_for_format-IsValid paths ranges none disk draws same d c = record {
    contiguous = new_slots-Contiguous paths ranges 0 (sum_blocks ranges) same (omega arith) c;
    ready = new_slots-IsReady paths ranges false none disk;
    apart = new_slots-Apart l.carrier_codec.temporary paths ranges d;
    keyed = λ e. cc;
  }
  new_for_format-IsValid paths ranges (some (cipher, order)) disk draws same d c = record {
    contiguous = new_slots-Contiguous paths ranges 0 (sum_blocks ranges) same (omega arith) c;
    ready = new_slots-IsReady paths ranges true (some order) disk;
    apart = new_slots-Apart l.carrier_codec.temporary paths ranges d;
    keyed = λ e. (cipher, refl);
  }
