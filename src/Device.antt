-- ===== src/Device.antt =====
-- What the file system of fs/album.rs takes from the block store of fs/block.rs: its operations on
-- an array of blocks of 4032 bytes, and their laws.
pub mod Memory
use album_fs.Common.{ℕ, ◌≤◌, ◌<◌, ◌≡◌, ◌≢◌, List, length, Result, ok, err, leb, if◌then◌else◌, ◌⊎◌}
use album_fs.Common.Actions.{Action}
use album_fs.Fs.{FsError, bad_block, manifest, ub}
use album_fs.Block.{pad}

-- `view s lba` is what reading block `lba` reports: its bytes, or the error of a block that is damaged.
pub record BlockDevice (S : Type 0) : Type 1 where
  pub read_block : ℕ → Action FsError S (List ℕ)
  pub write_block : ℕ → List ℕ → Action FsError S (Unit {0})
  pub flush : Action FsError S (Unit {0})
  pub total_blocks : S → ℕ
  pub IsValid : S → Type 0
  pub view : S → ℕ → Result FsError (List ℕ)
  pub read_block-view :
      (s : S) (lba : ℕ) → IsValid s → lba < total_blocks s → (read_block lba s).0 ≡ view s lba
  pub read_block-IsValid :
      (s : S) (lba : ℕ) → IsValid s → lba < total_blocks s → IsValid (read_block lba s).1
  pub view-read_block :
      (s : S) (lba j : ℕ)
      → IsValid s
      → lba < total_blocks s
      → view (read_block lba s).1 j ≡ view s j
  pub total_blocks-read_block :
      (s : S) (lba : ℕ)
      → IsValid s
      → lba < total_blocks s
      → total_blocks (read_block lba s).1 ≡ total_blocks s
  pub write_block_ok :
      (s : S) (lba : ℕ) (payload : List ℕ)
      → IsValid s
      → lba < total_blocks s
      → length payload ≤ ub
      → (write_block lba payload s).0 ≡ ok tt
  pub write_block-IsValid :
      (s : S) (lba : ℕ) (payload : List ℕ)
      → IsValid s
      → lba < total_blocks s
      → length payload ≤ ub
      → IsValid (write_block lba payload s).1
  pub view-write_block_self :
      (s : S) (lba : ℕ) (payload : List ℕ)
      → IsValid s
      → lba < total_blocks s
      → length payload ≤ ub
      → view (write_block lba payload s).1 lba ≡ ok (pad payload)
  pub view-write_block_other :
      (s : S) (lba j : ℕ) (payload : List ℕ)
      → IsValid s
      → lba < total_blocks s
      → length payload ≤ ub
      → j ≢ lba
      → view (write_block lba payload s).1 j ≡ view s j
  pub total_blocks-write_block :
      (s : S) (lba : ℕ) (payload : List ℕ)
      → IsValid s
      → lba < total_blocks s
      → length payload ≤ ub
      → total_blocks (write_block lba payload s).1 ≡ total_blocks s
  -- A number past the end and a payload that is too long are refused, and nothing changes.
  pub read_block-outside :
      (s : S) (lba : ℕ) → total_blocks s ≤ lba → read_block lba s ≡ (err (bad_block lba), s)
  pub write_block-refused :
      (s : S) (lba : ℕ) (payload : List ℕ)
      → (ub < length payload) ⊎ (total_blocks s ≤ lba)
      → write_block lba payload s
        ≡ (err (if leb (length payload) ub then bad_block lba else manifest), s)
  pub flush-IsValid : (s : S) → IsValid s → IsValid (flush s).1
  pub view-flush : (s : S) (j : ℕ) → IsValid s → view (flush s).1 j ≡ view s j
  pub total_blocks-flush : (s : S) → IsValid s → total_blocks (flush s).1 ≡ total_blocks s
