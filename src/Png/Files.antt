-- ===== src/Png/Files.antt =====
-- PNG files as a codec for the block store.
use album_fs.Common.{ℕ, ◌≡◌, ◌≢◌, ap, ◌∙◌, refl, List, Bool, Result, ok, err, panic, ◌>>=◌}
use album_fs.Common.Actions.{continue}
use album_fs.Fs.{CodecError}
use album_fs.Codec.{CarrierCodec, ChunkWrite, ChunkRead}
use album_fs.Chunk.{Crc16}
use album_fs.Chunk.Order.{Shuffle}
use album_fs.Png.{RgbaImage}
use album_fs.Png.Chunks.{
  ImageFiles, embed, extract, save_atomic, change, raw_capacity_bytes, write_chunk, read_chunk,
  write_prefix, read_prefix,
}

module _ (c : Crc16) (s : Shuffle) {FilePath Disk Image : Type 0} (r : RgbaImage Image)
    (f : ImageFiles FilePath Disk Image) where
  module _ (path path' : FilePath) (other : path' ≢ path) (kept : path' ≢ f.temporary path) where
    rename-other :
        (saved : Result CodecError (Unit {0}) × Disk)
        → f.open_image path' (continue (λ _. f.rename (f.temporary path) path) saved).1
          ≡ f.open_image path' saved.1
    rename-other (ok done, disk) =
        f.open_image-rename_other (f.temporary path) path path' disk kept other
    rename-other (err e, disk) = refl
    rename-other (panic, disk) = refl

    save_atomic-other :
        (image : Image) (disk : Disk)
        → f.open_image path' (save_atomic c s r f path image disk).1 ≡ f.open_image path' disk
    unfolding save_atomic
    save_atomic-other image disk =
        rename-other (f.save (f.temporary path) image disk)
        ∙ f.open_image-save_other (f.temporary path) path' image disk kept

    edited-other :
        (edited : Result CodecError Image) (disk : Disk)
        → f.open_image path' (continue (save_atomic c s r f path) (edited, disk)).1
          ≡ f.open_image path' disk
    edited-other (ok image) disk = save_atomic-other image disk
    edited-other (err e) disk = refl
    edited-other panic disk = refl

  -- However writing a carrier ends, every file that is neither the carrier nor its temporary file reads as before.
  pub read_chunk-write_chunk_other :
      (path path' : FilePath) (mode : ChunkWrite) (mode' : ChunkRead) (payload key key' : List ℕ)
      (disk : Disk)
      → path' ≢ path
      → path' ≢ f.temporary path
      → read_chunk c s r f path' mode' key' (write_chunk c s r f path mode payload key disk).1
        ≡ read_chunk c s r f path' mode' key' disk
  unfolding read_chunk write_chunk change
  read_chunk-write_chunk_other path path' mode mode' payload key key' disk other kept =
      ap (λ o. o >>= extract c s r mode' key')
        (edited-other path path' other kept
          (f.open_image path disk >>= embed c s r mode payload key) disk)

  -- The codec, `for_path` being the test of the extension.
  abbrev pub png_codec : (FilePath → Bool) → CarrierCodec FilePath Disk
  png_codec for_path = record {
    for_path = for_path;
    raw_capacity_bytes = raw_capacity_bytes c s r f;
    write_chunk = write_chunk c s r f;
    read_chunk = read_chunk c s r f;
    write_prefix = write_prefix c s r f;
    read_prefix = read_prefix c s r f;
    temporary = f.temporary;
    read_chunk-write_chunk_other = read_chunk-write_chunk_other;
  }
