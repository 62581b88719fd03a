-- ===== src/Stats/Examples.antt =====
-- The theorem about the statistics at an empty album of two carriers in memory.
use album_fs.Common.{
  ◌+◌, ◌≡◌, refl, [], ◌∷◌, replicate, take, drop, slice, copy_at, from_le, copy_all, ok, arith,
}
use album_fs.Fs.{ub}
use album_fs.Bitmap.{from_bytes}
use album_fs.Inode.{decode, read_pointers}
use album_fs.Superblock.{Superblock}
use album_fs.Fs.{range}
use album_fs.Album.{inode_location, read_inode, count_used, used_inodes}
use album_fs.Device.Memory.{Blocks, memory}
use album_fs.Format.{validate_manifest_geometry, load_bitmap, load_blocks}
use album_fs.Format.Geometry.{validate_manifest_geometry_iff}
use album_fs.Stats.{FsStats, opened, collect_opened}
use album_fs.Stats.Counts.{sum_used, sum_capacity, collect_opened-Adds}

abbrev superblock : Superblock
superblock = record {
  version = 2;
  block_size = 4096;
  usable_size = 4032;
  total_blocks = 8;
  inode_count = 2;
  bitmap_start = 1;
  inode_table_start = 2;
  data_start = 3;
  root_inode = 1;
  crypto_flags = 0;
  salt = [];
  mem_kib = 0;
  iters = 0;
  parallel = 0;
  carriers =
      record { name = []; chunk_index = 0; block_start = 0; block_count = 5 }
      ∷ record { name = []; chunk_index = 1; block_start = 5; block_count = 3 }
      ∷ [];
}

abbrev zeros : Blocks
zeros block = replicate ub 0

passes : validate_manifest_geometry superblock ≡ ok tt
passes =
    (validate_manifest_geometry_iff superblock).1
      ((refl, omega arith, omega arith, (refl, omega arith, omega arith, tt)), refl)

bitmap_read : load_bitmap memory superblock zeros ≡ (ok (from_bytes (0 ∷ []) 8), zeros)
unfolding load_bitmap load_blocks range take drop slice replicate
bitmap_read = refl

inodes_counted :
    used_inodes memory (opened memory superblock (from_bytes (0 ∷ []) 8) zeros)
    ≡ (ok 0, opened memory superblock (from_bytes (0 ∷ []) 8) zeros)
unfolding used_inodes count_used read_inode inode_location range copy_at replicate take drop slice
    decode from_le copy_all read_pointers
inodes_counted = refl

collect_opened-Adds_example :
    (stats : FsStats) × (collect_opened memory superblock zeros ≡ (ok stats, zeros))
    × (sum_used stats.carriers + stats.free_blocks ≡ stats.total_blocks)
    × (sum_capacity stats.carriers ≡ stats.total_blocks)
collect_opened-Adds_example =
    collect_opened-Adds memory superblock zeros zeros (0 ∷ []) 0
      (opened memory superblock (from_bytes (0 ∷ []) 8) zeros) passes bitmap_read inodes_counted
