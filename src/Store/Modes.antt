-- ===== src/Store/Modes.antt =====
-- How a carrier is written and read again, and what a codec must keep for that.
use album_fs.Common.{
  IsU32, ◌<◌, arith, ◌>>=◌, ℕ, ◌*◌, ◌≡◌, refl, Bool, true, false, List, [], length, Option, none,
  some, if◌then◌else◌, Result, ok, err, panic, ok_or, map_err, All, IsByte,
}
use album_fs.Common.Ends.{is_ok}
use mathlib.Core.Path.{subst}
use album_fs.Fs.{FsError, codec, CodecError, auth, pb}
use album_fs.Codec.{ChunkMeta, ChunkWrite, ChunkRead, CarrierCodec}
use album_fs.Store.{CarrierSlot, read_mode}

-- How a chunk that was written is read, and what it then says of itself.
abbrev pub reads_back : ChunkWrite → ℕ → ChunkRead
reads_back (ChunkWrite.framed meta) n = ChunkRead.framed
reads_back (ChunkWrite.markerless chunk_index) n = ChunkRead.markerless chunk_index n

abbrev pub meta_of : ChunkWrite → ChunkMeta
meta_of (ChunkWrite.framed meta) = meta
meta_of (ChunkWrite.markerless chunk_index) = record { chunk_index = chunk_index; flags = 0 }

-- A codec that reads back the bytes of every chunk that it wrote, the index of the chunk being of 32 bits and
-- its flags those of the block store.
abbrev pub Retains : {FilePath Disk : Type 0} → CarrierCodec FilePath Disk → Type 0
Retains {FilePath = FilePath} {Disk = Disk} c =
    (path : FilePath) (mode : ChunkWrite) (payload key : List ℕ) (disk : Disk)
    → All IsByte payload
    → IsU32 (meta_of mode).chunk_index
    → (meta_of mode).flags < 2
    → (c.write_chunk path mode payload key disk).0 ≡ ok tt
    → c.read_chunk path (reads_back mode (length payload)) key
        (c.write_chunk path mode payload key disk).1
      ≡ ok (meta_of mode, payload)

-- The mode and the key with which a slot is written.
unfoldable pub mode_for :
    {FilePath : Type 0}
    → Bool
    → Option (List ℕ)
    → CarrierSlot FilePath
    → Result FsError (ChunkWrite × List ℕ)
mode_for encrypted order_key slot =
    if encrypted
    then (ok_or order_key auth >>= λ key. ok (ChunkWrite.markerless slot.chunk_index, key))
    else ok (
      ChunkWrite.framed
          (record { chunk_index = slot.chunk_index; flags = if slot.is_primary then 1 else 0 }),
      [],
    )

pub ok-inj : {A : Type 0} {x y : A} → ◌≡◌ {A = Result FsError A} (ok x) (ok y) → x ≡ y
ok-inj e = cc

flag : (b : Bool) → (if b then 1 else 0) < 2
flag true = omega arith
flag false = omega arith

-- A slot is read as it was written.
pub same_mode :
    {FilePath : Type 0} (encrypted : Bool) (order_key : Option (List ℕ))
    (slot : CarrierSlot FilePath) (mode : ChunkWrite) (key : List ℕ)
    → mode_for encrypted order_key slot ≡ ok (mode, key)
    → (read_mode encrypted order_key slot ≡ ok (reads_back mode (slot.block_count * pb), key))
      × ((meta_of mode).chunk_index ≡ slot.chunk_index)
      × ((meta_of mode).flags < 2)
unfolding mode_for read_mode
same_mode false order_key slot mode key e =
    subst
      (λ (q : ChunkWrite × List ℕ).
        (read_mode false order_key slot ≡ ok (reads_back q.0 (slot.block_count * pb), q.1))
        × ((meta_of q.0).chunk_index ≡ slot.chunk_index)
        × ((meta_of q.0).flags < 2))
      (ok-inj e) (refl, refl, flag slot.is_primary)
same_mode true none slot mode key e = cc
same_mode true (some k) slot mode key e =
    subst
      (λ (q : ChunkWrite × List ℕ).
        (read_mode true (some k) slot ≡ ok (reads_back q.0 (slot.block_count * pb), q.1))
        × ((meta_of q.0).chunk_index ≡ slot.chunk_index)
        × ((meta_of q.0).flags < 2))
      (ok-inj e) (refl, refl, omega arith)

pub was_ok : (r : Result CodecError (Unit {0})) → is_ok (map_err codec r) ≡ true → r ≡ ok tt
was_ok (ok a) e = refl
was_ok (err x) e = cc
was_ok panic e = cc
