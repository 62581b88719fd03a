-- ===== src/Album/Sync.antt =====
-- The clock, and `sync`: the bitmap is written to its blocks, and the store to its carriers.
use album_fs.Common.{ℕ, ◌+◌, ok}
use album_fs.Common.Actions.{Action, ◌>>◌}
use album_fs.Fs.{FsError}
use album_fs.Bitmap
use album_fs.Format.{write_bitmap}
use album_fs.Device.{BlockDevice}
use album_fs.Album.{AlbumFs, on_store}

module _ {S : Type 0} where
  abbrev pub total_blocks : AlbumFs S → ℕ
  total_blocks fs = fs.sb.total_blocks

  abbrev pub free_blocks : AlbumFs S → ℕ
  free_blocks fs = Bitmap.count_free fs.bitmap

  abbrev pub inode_count : AlbumFs S → ℕ
  inode_count fs = fs.sb.inode_count

  -- The clock as the seconds that its calls give, in their order.
  unfoldable pub now : (ℕ → ℕ) → Action FsError (AlbumFs S) ℕ
  now clock fs = (ok (clock fs.calls), record fs { calls = fs.calls + 1 })

module _ {S : Type 0} (d : BlockDevice S) where
  unfoldable pub sync : Action FsError (AlbumFs S) (Unit {0})
  sync = do (λ fs. on_store d (write_bitmap d fs.sb fs.bitmap) fs); on_store d d.flush
