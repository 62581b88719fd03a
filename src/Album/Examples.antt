-- ===== src/Album/Examples.antt =====
-- An inode in the second block of a small encrypted store.
use album_fs.Common.{
  ◌^◌, ◌≤◌, ℕ, ◌≡◌, refl, List, [], replicate, length-replicate, get_or, take, drop, ◌<◌, slice,
  from_le, ok, arith,
}
use album_fs.Fs.{ub}
use album_fs.Block.{decode}
use album_fs.Inode.{Inode, IsValid, default}
use album_fs.Superblock.{Superblock}
use album_fs.Store.{Machine, load, open_block, read_mode}
use album_fs.Store.Slots.{raw}
use album_fs.Store.Reads.{view}
use album_fs.Store.Device.{device}
use album_fs.Store.Examples.{libraries, machine, machine-IsValid}
use album_fs.Album.{AlbumFs, read_inode, write_inode}
use album_fs.Album.Inodes.{read_inode-write_inode}

abbrev superblock : Superblock
superblock = record {
  version = 3;
  block_size = 4096;
  usable_size = 4032;
  total_blocks = 2;
  inode_count = 21;
  bitmap_start = 0;
  inode_table_start = 1;
  data_start = 2;
  root_inode = 1;
  crypto_flags = 1;
  salt = replicate 16 0;
  mem_kib = 0;
  iters = 0;
  parallel = 0;
  carriers = [];
}

abbrev album : AlbumFs (Machine ℕ (ℕ → List ℕ))
album = record {
  store = machine;
  sb = superblock;
  bitmap = record { bits = []; total_blocks = 2 };
  calls = 0;
}

abbrev file : Inode
file = record default { mode = 0o100644; nlink = 1; size = 7 }

file-IsValid : IsValid file
file-IsValid = omega arith

machine-device : (device libraries).IsValid machine
unfolding device
machine-device = machine-IsValid

second-inside : 1 < (device libraries).total_blocks machine
unfolding device
second-inside = omega arith

two-blocks : (device libraries).total_blocks machine ≤ 2 ^ 52
unfolding device
two-blocks = omega arith

second-readable : (device libraries).view machine 1 ≡ ok (replicate ub 0)
unfolding device view raw load open_block decode replicate slice take drop from_le read_mode get_or
second-readable = refl

read_inode-write_inode_example :
    ((write_inode (device libraries) 3 file album).0 ≡ ok tt)
    × ((read_inode (device libraries) 3 (write_inode (device libraries) 3 file album).1).0
        ≡ ok file)
read_inode-write_inode_example =
    read_inode-write_inode (device libraries) album 3 file (replicate ub 0) (omega arith)
      (omega arith) machine-device two-blocks second-inside second-readable
      (length-replicate {A = ℕ} ub 0) file-IsValid
