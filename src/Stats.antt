-- ===== src/Stats.antt =====
-- The statistics of fs/stats.rs: the blocks and inodes in use, over any block device. `render`, which prints them, is
-- left out.
mod Counts
mod Examples
use album_fs.Common.{
  ℕ, zero, suc, ◌+◌, ◌*◌, ◌&&◌, not, ◌==◌, Bool, List, [], ◌∷◌, ltb, if◌then◌else◌, ok,
}
use album_fs.Common.Actions.{Action, ◌>>=◌, lift}
use album_fs.Fs.{FsError}
use album_fs.Bitmap.{Bitmap, is_set, count_free}
use album_fs.Superblock.{Superblock, CarrierRange, encrypted}
use album_fs.Device.{BlockDevice}
use album_fs.Album.{AlbumFs, used_inodes}
use album_fs.Format.{load_bitmap}

pub record CarrierFill : Type 0 where
  pub chunk_index : ℕ
  pub used_blocks : ℕ
  pub capacity_blocks : ℕ

pub record FsStats : Type 0 where
  pub block_size : ℕ
  pub total_blocks : ℕ
  pub free_blocks : ℕ
  pub used_inodes : ℕ
  pub total_inodes : ℕ
  pub encrypted : Bool
  pub carriers : List CarrierFill

-- The set blocks among the `n` from `block` on.
unfoldable pub count_set : Bitmap → ℕ → ℕ → ℕ
count_set b block zero = 0
count_set b block (suc n) = (if is_set b block then 1 else 0) + count_set b (block + 1) n

unfoldable pub carrier_fills : Bitmap → List CarrierRange → List CarrierFill
carrier_fills b [] = []
carrier_fills b (range ∷ rest) =
    record {
      chunk_index = range.chunk_index;
      used_blocks = count_set b range.block_start range.block_count;
      capacity_blocks = range.block_count;
    }
    ∷ carrier_fills b rest

unfoldable pub low_space : FsStats → Bool
low_space stats =
    not (stats.total_blocks == 0) && ltb (stats.free_blocks * 100) (stats.total_blocks * 10)

abbrev pub stats_of : Superblock → Bitmap → ℕ → FsStats
stats_of sb bitmap used = record {
  block_size = sb.block_size;
  total_blocks = sb.total_blocks;
  free_blocks = count_free bitmap;
  used_inodes = used;
  total_inodes = sb.inode_count;
  encrypted = encrypted sb;
  carriers = carrier_fills bitmap sb.carriers;
}

module _ {S : Type 0} (d : BlockDevice S) where
  abbrev pub opened : Superblock → Bitmap → S → AlbumFs S
  opened sb bitmap store = record { store = store; sb = sb; bitmap = bitmap; calls = 0 }

  -- The inodes in use, counted in the file system that the parts make.
  abbrev pub inodes_of : Superblock → Bitmap → Action FsError S ℕ
  inodes_of sb bitmap store = let (r, fs) = used_inodes d (opened sb bitmap store) in (r, fs.store)

  unfoldable pub collect_opened : Superblock → Action FsError S FsStats
  collect_opened sb = do
    bitmap ← load_bitmap d sb
    used ← inodes_of sb bitmap
    lift (ok (stats_of sb bitmap used))
