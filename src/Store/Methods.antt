-- ===== src/Store/Methods.antt =====
-- The methods of `BlockStore` that change it.
use album_fs.Common.{
  ℕ, suc, ◌+◌, ◌-◌, ◌*◌, true, false, List, [], ◌∷◌, length, Option, none, some, get_elem?, set,
  copy_at, leb, if◌then◌else◌, Result, ok, ok_or, or_panic, map_err, ensure,
}
use album_fs.Common.Actions.{Action, ◌>>=◌, ◌>>◌, lift, reads, modify}
use album_fs.Fs.{FsError, codec, auth, manifest, pb, ub}
use album_fs.Block.{build_physical_block, encode}
use album_fs.Codec.{ChunkWrite}
use album_fs.Fs.{range}
use album_fs.Store.{CarrierSlot, BlockStore, Machine, Libraries, carrier_for, load, open_block}

abbrev pub Step : Type 0 → Type 0 → Type 0 → Type 0
Step FilePath Disk A = Action FsError (Machine FilePath Disk) A

module _ {FilePath Disk : Type 0} where
  -- `self.carriers[idx]`, and the assignment to it.
  abbrev pub slot_at : ℕ → Machine FilePath Disk → Result FsError (CarrierSlot FilePath)
  slot_at idx m = or_panic (get_elem? m.store.carriers idx)

  abbrev pub put_slot : ℕ → CarrierSlot FilePath → Machine FilePath Disk → Machine FilePath Disk
  put_slot idx slot m = record m {
    store = record (m.store) { carriers = set m.store.carriers idx slot };
  }

module _ {FilePath Disk : Type 0} (l : Libraries FilePath Disk) where
  -- The body of `ensure_loaded`, by the slot's buffer.
  unfoldable pub fill : ℕ → CarrierSlot FilePath → Option (List ℕ) → Step FilePath Disk (Unit {0})
  fill idx slot (some buffer) = lift (ok tt)
  fill idx slot none = do
    payload ← reads (λ m. load l m.store.encrypted m.store.order_key m.disk slot)
    modify (put_slot idx (record slot { buffer = some payload }))

  unfoldable pub ensure_loaded : ℕ → Step FilePath Disk (Unit {0})
  unfolding fill
  ensure_loaded idx = do slot ← reads (slot_at idx); fill idx slot slot.buffer

  unfoldable pub read_loaded : ℕ → ℕ → Step FilePath Disk (List ℕ)
  read_loaded lba idx = do
    slot ← reads (slot_at idx)
    buffer ← lift (ok_or slot.buffer manifest)
    let offset = (lba - slot.block_start) * pb
    block ← lift (range buffer offset (offset + pb))
    reads (λ m. open_block l m.store lba block)

  unfoldable pub read_block : ℕ → Step FilePath Disk (List ℕ)
  read_block lba = do
    idx ← reads (λ m. carrier_for m.store lba)
    ensure_loaded idx
    read_loaded lba idx

  -- `OsRng.fill_bytes` on a nonce.
  unfoldable pub draw_nonce : Step FilePath Disk (List ℕ)
  draw_nonce m = (ok (l.nonce m.draws), record m { draws = suc m.draws })

  unfoldable pub seal_block : ℕ → List ℕ → Step FilePath Disk (List ℕ)
  seal_block lba payload m =
      if m.store.encrypted
      then (do
        key ← lift (ok_or m.store.cipher auth)
        nonce ← draw_nonce
        lift (encode l.checksum l.aead key nonce lba payload))
          m
      else (build_physical_block l.checksum payload, m)

  -- `buffer[offset..offset + PB].copy_from_slice(&block)`, which panics past the buffer's end.
  unfoldable pub place : ℕ → ℕ → List ℕ → Step FilePath Disk (Unit {0})
  place lba idx block = do
    slot ← reads (slot_at idx)
    buffer ← lift (ok_or slot.buffer manifest)
    let offset = (lba - slot.block_start) * pb
    _ ← lift (range buffer offset (offset + pb))
    modify
        (put_slot idx (record slot { buffer = some (copy_at buffer offset block); dirty = true }))

  unfoldable pub write_block : ℕ → List ℕ → Step FilePath Disk (Unit {0})
  write_block lba payload = do
    lift (ensure (leb (length payload) ub) manifest)
    idx ← reads (λ m. carrier_for m.store lba)
    ensure_loaded idx
    block ← seal_block lba payload
    place lba idx block

  -- The carrier file may have changed where the codec reports an error.
  unfoldable pub write_chunk :
      CarrierSlot FilePath → ChunkWrite → List ℕ → List ℕ → Step FilePath Disk (Unit {0})
  write_chunk slot mode buffer key m =
      let (r, disk) = l.carrier_codec.write_chunk slot.path mode buffer key m.disk in
      (map_err codec r, record m { disk = disk })

  unfoldable pub write_mode : CarrierSlot FilePath → Step FilePath Disk (ChunkWrite × List ℕ)
  write_mode slot m =
      if m.store.encrypted
      then (do
        key ← lift (ok_or m.store.order_key auth)
        lift (ok (ChunkWrite.markerless slot.chunk_index, key)))
          m
      else (
        ok (
          ChunkWrite.framed
              (record { chunk_index = slot.chunk_index; flags = if slot.is_primary then 1 else 0 }),
          [],
        ),
        m,
      )

  -- One dirty slot of `flush`.
  unfoldable pub flush_slot : ℕ → CarrierSlot FilePath → Step FilePath Disk (Unit {0})
  flush_slot idx slot = do
    buffer ← lift (ok_or slot.buffer manifest)
    lift (ensure (l.carrier_codec.for_path slot.path) manifest)
    (mode, key) ← write_mode slot
    write_chunk slot mode buffer key
    modify (put_slot idx (record slot { dirty = false }))

  -- The loop of `flush` over the slots from `idx` on, which are the list's.
  unfoldable pub flush_from : ℕ → List (CarrierSlot FilePath) → Step FilePath Disk (Unit {0})
  flush_from idx [] = lift (ok tt)
  flush_from idx (slot ∷ rest) = do
    if slot.dirty then flush_slot idx slot else lift (ok tt)
    flush_from (suc idx) rest

  unfoldable pub flush : Step FilePath Disk (Unit {0})
  flush m = flush_from 0 m.store.carriers m

abbrev pub total_blocks : {FilePath : Type 0} → BlockStore FilePath → ℕ
total_blocks store = store.total_blocks
