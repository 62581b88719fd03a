-- ===== src/Codec.antt =====
-- The interface of the carrier codecs: `CarrierCodec`, `ChunkMeta`, `ChunkWrite` and `ChunkRead` of
-- stego/mod.rs, as the block layer sees them.
use album_fs.Common.{ℕ, ◌≡◌, ◌≢◌, List, Bool, Result}
use album_fs.Fs.{CodecError}

pub record ChunkMeta : Type 0 where
  pub chunk_index : ℕ
  pub flags : ℕ

pub data ChunkWrite : Type 0 where
  framed : ChunkMeta → ChunkWrite
  markerless : ℕ → ChunkWrite

-- `markerless chunk_index payload_len`.
pub data ChunkRead : Type 0 where
  framed : ChunkRead
  markerless : ℕ → ℕ → ChunkRead

-- `for_path` tells whether a path has a codec; the operations are those of the codec it has. `Disk`
-- is what the carrier files hold.
pub record CarrierCodec (FilePath Disk : Type 0) : Type 0 where
  pub for_path : FilePath → Bool
  pub raw_capacity_bytes : FilePath → Disk → Result CodecError ℕ
  pub write_chunk :
      FilePath → ChunkWrite → List ℕ → List ℕ → Disk → Result CodecError (Unit {0}) × Disk
  pub read_chunk : FilePath → ChunkRead → List ℕ → Disk → Result CodecError (ChunkMeta × List ℕ)
  pub write_prefix : FilePath → List ℕ → Disk → Result CodecError (Unit {0}) × Disk
  pub read_prefix : FilePath → ℕ → Disk → Result CodecError (List ℕ)
  -- The file that writing a carrier makes first, and then renames.
  pub temporary : FilePath → FilePath
  -- Writing a carrier leaves as they are the files that are neither the carrier nor its temporary file.
  pub read_chunk-write_chunk_other :
      (path path' : FilePath) (mode : ChunkWrite) (mode' : ChunkRead) (payload key key' : List ℕ)
      (disk : Disk)
      → path' ≢ path
      → path' ≢ temporary path
      → read_chunk path' mode' key' (write_chunk path mode payload key disk).1
        ≡ read_chunk path' mode' key' disk

-- Two carriers, neither of which is the other or the temporary file of the other.
abbrev pub Separate : {FilePath : Type 0} → (FilePath → FilePath) → FilePath → FilePath → Type 0
Separate temporary path path' = (path ≢ path') × (path ≢ temporary path') × (path' ≢ temporary path)
