-- ===== src/Store.antt =====
-- The block store of fs/block.rs: the carriers' payloads as one array of blocks.
pub mod Methods
pub mod Slots
pub mod Reads
pub mod Writes
pub mod Device
pub mod Format
pub mod Keeps
pub mod Flush
pub mod Modes
pub mod Durable
pub mod Examples
use mathlib.Core.Option
use album_fs.Common.{
  ℕ, suc, ◌+◌, ◌-◌, ◌*◌, ◌≡◌, Bool, not, ◌&&◌, List, [], ◌∷◌, length, Option, none, some, get_elem?,
  slice, copy_at, ltb, leb, ◌==◌, if◌then◌else◌, Result, ok, err, panic, ok_or, or_panic, map_err,
  ◌>>=◌, ◌>>◌, ensure,
}
use album_fs.Fs.{range, FsError, codec, auth, manifest, bad_block, pb}
use album_fs.Block.{Checksum, Aead, read_physical_block, decode}
use album_fs.Codec.{CarrierCodec, ChunkRead}

pub record CarrierSlot (FilePath : Type 0) : Type 0 where
  pub path : FilePath
  pub chunk_index : ℕ
  pub is_primary : Bool
  pub block_start : ℕ
  pub block_count : ℕ
  pub buffer : Option (List ℕ)
  pub dirty : Bool

-- A cipher is its key.
pub record BlockStore (FilePath : Type 0) : Type 0 where
  pub carriers : List (CarrierSlot FilePath)
  pub total_blocks : ℕ
  pub encrypted : Bool
  pub cipher : Option (List ℕ)
  pub order_key : Option (List ℕ)

-- The store, the carrier files, and how many nonces `OsRng` has given so far.
pub record Machine (FilePath Disk : Type 0) : Type 0 where
  pub store : BlockStore FilePath
  pub disk : Disk
  pub draws : ℕ

-- What the store calls: `OsRng` as the sequence of nonces that it gives, of 24 bytes each.
pub record Libraries (FilePath Disk : Type 0) : Type 0 where
  pub checksum : Checksum
  pub aead : Aead
  pub nonce : ℕ → List ℕ
  pub length-nonce : (k : ℕ) → length (nonce k) ≡ 24
  pub carrier_codec : CarrierCodec FilePath Disk

module _ {FilePath : Type 0} where
  -- The test of `carrier_for`.
  abbrev pub covers : CarrierSlot FilePath → ℕ → Bool
  covers slot lba = leb slot.block_start lba && ltb lba (slot.block_start + slot.block_count)

  unfoldable pub position : ℕ → List (CarrierSlot FilePath) → Option ℕ
  position lba [] = none
  position lba (slot ∷ rest) =
      if covers slot lba then some 0 else Option.map suc (position lba rest)

  unfoldable pub carrier_for : BlockStore FilePath → ℕ → Result FsError ℕ
  carrier_for store lba =
      if leb store.total_blocks lba
      then err (bad_block lba)
      else ok_or (position lba store.carriers) (bad_block lba)

  -- The mode and the order key with which a slot is read.
  unfoldable pub read_mode :
      Bool → Option (List ℕ) → CarrierSlot FilePath → Result FsError (ChunkRead × List ℕ)
  read_mode encrypted order_key slot =
      if encrypted
      then (do
        key ← ok_or order_key auth
        ok (ChunkRead.markerless slot.chunk_index (slot.block_count * pb), key))
      else ok (ChunkRead.framed, [])

module _ {FilePath Disk : Type 0} (l : Libraries FilePath Disk) where
  -- The payload that `ensure_loaded` takes from the carrier file, with its checks.
  unfoldable pub load :
      Bool → Option (List ℕ) → Disk → CarrierSlot FilePath → Result FsError (List ℕ)
  load encrypted order_key disk slot = do
    ensure (l.carrier_codec.for_path slot.path) manifest
    (mode, key) ← read_mode encrypted order_key slot
    (meta, payload) ← map_err codec (l.carrier_codec.read_chunk slot.path mode key disk)
    ensure (meta.chunk_index == slot.chunk_index) manifest
    ensure (length payload == slot.block_count * pb) manifest
    ok payload

  -- The last part of `read_block`: the block is decrypted, or its checksum is tested.
  unfoldable pub open_block : BlockStore FilePath → ℕ → List ℕ → Result FsError (List ℕ)
  open_block store lba block =
      if store.encrypted
      then (do key ← ok_or store.cipher auth; decode l.checksum l.aead key lba block)
      else read_physical_block l.checksum lba block
