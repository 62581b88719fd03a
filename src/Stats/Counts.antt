-- ===== src/Stats/Counts.antt =====
-- The counts of the statistics add up.
use album_fs.Common.{
  ℕ, zero, suc, ◌+◌, ◌≡◌, refl, ap, ◌∙◌, Bool-cases, inl, inr, List, [], ◌∷◌, ok, arith,
}
use mathlib.Core.Path.{subst}
use album_fs.Bitmap.{Bitmap, is_set, count_clear, count_free, from_bytes}
use album_fs.Superblock.{Superblock, CarrierRange}
use album_fs.Device.{BlockDevice}
use album_fs.Album.{AlbumFs, used_inodes}
use album_fs.Store.Format.{sum_blocks}
use album_fs.Format.{load_bitmap, validate_manifest_geometry}
use album_fs.Format.Geometry.{AreRanges, validate_manifest_geometry_iff}
use album_fs.Stats.{
  CarrierFill, FsStats, count_set, carrier_fills, stats_of, opened, collect_opened,
}

abbrev pub sum_used : List CarrierFill → ℕ
sum_used [] = 0
sum_used (fill ∷ rest) = fill.used_blocks + sum_used rest

abbrev pub sum_capacity : List CarrierFill → ℕ
sum_capacity [] = 0
sum_capacity (fill ∷ rest) = fill.capacity_blocks + sum_capacity rest

-- Every block is counted once, as set or as clear.
set-clear_add : (b : Bitmap) (block n : ℕ) → count_set b block n + count_clear b block n ≡ n
unfolding count_set count_clear
set-clear_add b block zero = refl
set-clear_add b block (suc n) = elim (Bool-cases (is_set b block)) [
  | inl e ↦ rw e (omega (arith, set-clear_add b (block + 1) n))
  | inr e ↦ rw e (omega (arith, set-clear_add b (block + 1) n))
]

count_clear_add :
    (b : Bitmap) (block m n : ℕ)
    → count_clear b block (m + n) ≡ count_clear b block m + count_clear b (block + m) n
unfolding count_clear
count_clear_add b block zero n =
    let e : block + 0 ≡ block = omega arith in
    let f : 0 + n ≡ n = omega arith in rw e (rw f (omega arith))
count_clear_add b block (suc m) n =
    let e : suc m + n ≡ suc (m + n) = omega arith in
    let f : block + suc m ≡ (block + 1) + m = omega arith in
    rw e (rw f (omega (arith, count_clear_add b (block + 1) m n)))

-- The blocks of ranges that follow each other are those set in a carrier and those that are clear.
fills_add :
    (b : Bitmap) (start : ℕ) (ranges : List CarrierRange)
    → AreRanges start ranges
    → sum_used (carrier_fills b ranges) + count_clear b start (sum_blocks ranges)
      ≡ sum_blocks ranges
unfolding carrier_fills
fills_add b start [] h = unfold count_clear in refl
fills_add b start (range ∷ rest) h =
    rw (h.0, count_clear_add b start range.block_count (sum_blocks rest))
      (omega (
        arith,
        set-clear_add b start range.block_count,
        fills_add b (start + range.block_count) rest h.3,
      ))

capacity_add :
    (b : Bitmap) (ranges : List CarrierRange)
    → sum_capacity (carrier_fills b ranges) ≡ sum_blocks ranges
unfolding carrier_fills
capacity_add b [] = refl
capacity_add b (range ∷ rest) = ap (◌+◌ range.block_count) (capacity_add b rest)

module _ {S : Type 0} (d : BlockDevice S) (sb : Superblock) (store loaded : S) (bytes : List ℕ)
    (used : ℕ) (fs : AlbumFs S) where
  -- Where the ranges of the manifest pass the test of opening, the bitmap is read and the inodes are counted, statistics
  -- are given: the blocks used over all carriers and the free blocks are together all blocks of the file
  -- system, and so are the capacities of the carriers.
  pub collect_opened-Adds :
      validate_manifest_geometry sb ≡ ok tt
      → load_bitmap d sb store ≡ (ok (from_bytes bytes sb.total_blocks), loaded)
      → used_inodes d (opened d sb (from_bytes bytes sb.total_blocks) loaded) ≡ (ok used, fs)
      → (stats : FsStats) × (collect_opened d sb store ≡ (ok stats, fs.store))
        × (sum_used stats.carriers + stats.free_blocks ≡ stats.total_blocks)
        × (sum_capacity stats.carriers ≡ stats.total_blocks)
  unfolding collect_opened count_free from_bytes
  collect_opened-Adds passes read counted =
      let (ranges, sum) = (validate_manifest_geometry_iff sb).0 passes in
      let bitmap = from_bytes bytes sb.total_blocks in
      (
        stats_of sb bitmap used,
        rw (read, counted) refl,
        subst (λ n. sum_used (carrier_fills bitmap sb.carriers) + count_clear bitmap 0 n ≡ n) sum
            (fills_add bitmap 0 sb.carriers ranges),
        capacity_add bitmap sb.carriers ∙ sum,
      )
