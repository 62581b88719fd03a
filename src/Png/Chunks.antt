-- ===== src/Png/Chunks.antt =====
-- The operations of `PngCodec` in stego/png.rs.
use album_fs.Common.{
  ℕ, ◌+◌, ◌-◌, ◌*◌, ◌/◌, ◌%◌, ◌^◌, ◌≡◌, ◌≢◌, not, List, [], length, ltb, leb, ◌==◌, if◌then◌else◌,
  Result, ok, err, ◌>>=◌,
}
use album_fs.Common.Actions.{Action, continue}
use album_fs.Fs.{CodecError, payload_too_large, not_a_carrier, invalid_mode}
use album_fs.Codec.{ChunkMeta, ChunkWrite, ChunkRead}
use album_fs.Chunk.{Crc16, chunk_header_len, encode_header, decode_header}
use album_fs.Chunk.Order.{Shuffle, order_positions, positions_from}
use album_fs.Png.{RgbaImage, write_bytes, read_bytes}

-- The PNG files, by the image crate and the operating system: `image_dimensions`, `open` and its
-- `to_rgba8`, `save`, `rename`, and the path of the temporary file. What was saved opens as it was,
-- since PNG keeps every bit, and renaming moves it.
pub record ImageFiles (FilePath Disk Image : Type 0) : Type 0 where
  pub dimensions : FilePath → Disk → Result CodecError (ℕ × ℕ)
  pub open_image : FilePath → Disk → Result CodecError Image
  pub save : FilePath → Image → Disk → Result CodecError (Unit {0}) × Disk
  pub rename : FilePath → FilePath → Disk → Result CodecError (Unit {0}) × Disk
  pub temporary : FilePath → FilePath
  pub open_image-save :
      (path : FilePath) (image : Image) (disk disk' : Disk)
      → save path image disk ≡ (ok tt, disk')
      → open_image path disk' ≡ ok image
  pub open_image-rename :
      (from to : FilePath) (disk disk' : Disk)
      → rename from to disk ≡ (ok tt, disk')
      → open_image to disk' ≡ open_image from disk
  -- Other files stay as they are, whether saving and renaming succeed or not.
  pub open_image-save_other :
      (path path' : FilePath) (image : Image) (disk : Disk)
      → path' ≢ path
      → open_image path' (save path image disk).1 ≡ open_image path' disk
  pub open_image-rename_other :
      (from to path' : FilePath) (disk : Disk)
      → path' ≢ from
      → path' ≢ to
      → open_image path' (rename from to disk).1 ≡ open_image path' disk

-- The product wraps around in 64 bits.
unfoldable pub slot_count : ℕ → ℕ → ℕ
slot_count w h = w * h * 3 % 2 ^ 64

abbrev pub raw_capacity : ℕ → ℕ → ℕ
raw_capacity w h = slot_count w h / 8

module _ (c : Crc16) (s : Shuffle) {Image : Type 0} (r : RgbaImage Image) where
  -- `write_chunk` between opening and saving.
  unfoldable pub embed : ChunkWrite → List ℕ → List ℕ → Image → Result CodecError Image
  embed (ChunkWrite.framed meta) payload order_key image =
      let raw = raw_capacity (r.width image) (r.height image) in
      let need = chunk_header_len + length payload in
      if not (length order_key == 0)
      then err invalid_mode
      else if leb (2 ^ 32) (length payload)
      then err (payload_too_large (length payload) (raw - chunk_header_len))
      else if ltb raw need
      then err (payload_too_large (length payload) (raw - chunk_header_len))
      else write_bytes r image (positions_from 0 (need * 8)) (encode_header c meta (length payload))
          payload
  embed (ChunkWrite.markerless chunk_index) payload order_key image =
      let raw = raw_capacity (r.width image) (r.height image) in
      let slots = slot_count (r.width image) (r.height image) in
      if ltb raw (length payload)
      then err (payload_too_large (length payload) raw)
      else (order_positions s (positions_from 0 slots) order_key chunk_index >>= λ positions.
          write_bytes r image positions [] payload)

  -- `read_chunk` after opening.
  unfoldable pub extract : ChunkRead → List ℕ → Image → Result CodecError (ChunkMeta × List ℕ)
  extract ChunkRead.framed order_key image =
      let raw = raw_capacity (r.width image) (r.height image) in
      let slots = slot_count (r.width image) (r.height image) in
      if not (length order_key == 0)
      then err invalid_mode
      else (read_bytes r image (positions_from 0 slots) 0 chunk_header_len >>= λ header.
          decode_header c header >>= λ (meta, payload_len).
          if ltb (raw - chunk_header_len) payload_len
          then err not_a_carrier
          else (read_bytes r image (positions_from 0 slots) (chunk_header_len * 8) payload_len
              >>= λ payload. ok (meta, payload)))
  extract (ChunkRead.markerless chunk_index payload_len) order_key image =
      let raw = raw_capacity (r.width image) (r.height image) in
      let slots = slot_count (r.width image) (r.height image) in
      if ltb raw payload_len
      then err not_a_carrier
      else (order_positions s (positions_from 0 slots) order_key chunk_index >>= λ positions.
          read_bytes r image positions 0 payload_len >>= λ payload.
          ok (record { chunk_index = chunk_index; flags = 0 }, payload))

  module _ {FilePath Disk : Type 0} (f : ImageFiles FilePath Disk Image) where
    unfoldable pub raw_capacity_bytes : FilePath → Disk → Result CodecError ℕ
    raw_capacity_bytes path disk = f.dimensions path disk >>= λ (w, h). ok (raw_capacity w h)

    unfoldable pub save_atomic : FilePath → Image → Action CodecError Disk (Unit {0})
    save_atomic path image disk =
        continue (λ _. f.rename (f.temporary path) path) (f.save (f.temporary path) image disk)

    unfoldable pub change :
        (Image → Result CodecError Image) → FilePath → Action CodecError Disk (Unit {0})
    change edit path disk = continue (save_atomic path) (f.open_image path disk >>= edit, disk)

    unfoldable pub write_chunk :
        FilePath → ChunkWrite → List ℕ → List ℕ → Action CodecError Disk (Unit {0})
    write_chunk path mode payload order_key = change (embed mode payload order_key) path

    unfoldable pub read_chunk :
        FilePath → ChunkRead → List ℕ → Disk → Result CodecError (ChunkMeta × List ℕ)
    read_chunk path mode order_key disk = f.open_image path disk >>= extract mode order_key

    unfoldable pub write_prefix : FilePath → List ℕ → Action CodecError Disk (Unit {0})
    write_prefix path bytes =
        change
          (λ image.
            let raw = raw_capacity (r.width image) (r.height image) in
            if ltb raw (length bytes)
            then err (payload_too_large (length bytes) raw)
            else write_bytes r image (positions_from 0 (length bytes * 8)) [] bytes)
          path

    unfoldable pub read_prefix : FilePath → ℕ → Disk → Result CodecError (List ℕ)
    read_prefix path n disk = f.open_image path disk >>= λ image.
        if ltb (raw_capacity (r.width image) (r.height image)) n
        then err not_a_carrier
        else read_bytes r image (positions_from 0 (n * 8)) 0 n
