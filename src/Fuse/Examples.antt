-- ===== src/Fuse/Examples.antt =====
-- The theorems about requests at a small album in memory, with the system's time as a number of seconds.
use album_fs.Common.{
  err, panic, min, ◌-◌, ℕ, ◌+◌, ◌≡◌, refl, ◌++◌, ◌∷◌, [], some, true, false, replicate, List, Bool,
  length,
}
use album_fs.Common.Int.{pos}
use album_fs.Common.Actions.{Action}
use album_fs.Inode.{Inode}
use album_fs.Fs.{range, ub}
use album_fs.Bitmap.{new}
use album_fs.Superblock.{Superblock}
use album_fs.Album.{AlbumFs, getattr, inode_location, read_inode}
use album_fs.Device.Memory.{Blocks, memory}
use album_fs.Fuse.Attributes.{Errno, eio, SystemTime, readdir_page}
use album_fs.Fuse.{lock, numbered, FuseAlbumFs, mkdir, write}
use album_fs.Fuse.Requests.{Requests, mounted, make_directory, write_file}
use album_fs.Fuse.Poison.{panic-Poisons}
use album_fs.Fuse.Pages.{readdir_page-resumes, last_offset}

abbrev superblock : Superblock
superblock = record {
  version = 2;
  block_size = 4096;
  usable_size = 4032;
  total_blocks = 8;
  inode_count = 21;
  bitmap_start = 1;
  inode_table_start = 2;
  data_start = 3;
  root_inode = 1;
  crypto_flags = 0;
  salt = [];
  mem_kib = 0;
  iters = 0;
  parallel = 0;
  carriers = [];
}

abbrev seconds : SystemTime
seconds = record { Time = ℕ; epoch = 0; after_epoch = λ n. some n; since_epoch = λ t. some t }

abbrev ascii : List ℕ → Bool
ascii name = true

abbrev clock : ℕ → ℕ
clock call = 1000 + call

abbrev empty : FuseAlbumFs Blocks
empty = record {
  fs = record { store = λ block. replicate ub 0; sb = superblock; bitmap = new 8; calls = 0 };
  poisoned = false;
}

-- Blocks without bytes, at which reading an inode panics.
abbrev broken : FuseAlbumFs Blocks
broken = record {
  fs = record { store = λ block. []; sb = superblock; bitmap = new 8; calls = 0 };
  poisoned = false;
}

abbrev attributes : Action Errno (AlbumFs Blocks) Inode
attributes = numbered (getattr memory 2)

attributes_panic : (attributes broken.fs).0 ≡ panic
unfolding getattr read_inode inode_location range
attributes_panic = refl

abbrev two_requests : (m : FuseAlbumFs Blocks) → FuseAlbumFs Blocks
two_requests m =
    (write memory ascii clock seconds 2 (pos 0) (1 ∷ 2 ∷ [])
      (mkdir memory ascii clock seconds 7 7 1 (97 ∷ []) 0o755 0o022 m).1).1

abbrev requests : (m : FuseAlbumFs Blocks) → Requests memory ascii clock seconds m (two_requests m)
requests m = write_file (make_directory mounted 7 7 1 (97 ∷ []) 0o755 0o022) 2 (pos 0) (1 ∷ 2 ∷ [])

panic-Poisons_example :
    ((two_requests (lock attributes broken).1).fs ≡ (attributes broken.fs).1)
    × ((lock attributes (two_requests (lock attributes broken).1)).0 ≡ err eio)
panic-Poisons_example =
    panic-Poisons memory ascii clock seconds attributes broken
      (two_requests (lock attributes broken).1) attributes refl attributes_panic
      (requests (lock attributes broken).1)

readdir_page-resumes_example :
    (length (readdir_page 5 (pos 1) 2) ≡ min 2 (5 - 1))
    × (readdir_page 5 (pos 1) 5
        ≡ readdir_page 5 (pos 1) 2
          ++ readdir_page 5 (pos (last_offset 1 (readdir_page 5 (pos 1) 2))) 5)
readdir_page-resumes_example = readdir_page-resumes 5 1 2
