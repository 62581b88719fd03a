-- ===== src/Album/Runs.antt =====
-- A small album in memory: a root directory and a file with a hole, and the theorems about the operations at it.
use album_fs.Common.{
  ℕ, zero, suc, ◌+◌, ◌-◌, ◌≡◌, refl, true, false, List, [], ◌∷◌, ◌++◌, Bool, length-replicate, none,
  replicate, get_or, take, drop, slice, copy_at, from_le, copy_all, ok, if◌then◌else◌, ◌==◌, min,
  arith,
}
use album_fs.Fs.{ub}
use album_fs.Bitmap.Invariant.{new-IsValid}
use album_fs.Bitmap.{new}
use album_fs.Inode.{Inode, encode, decode, default, is_dir, read_pointers}
use album_fs.Superblock.{Superblock}
use album_fs.Fs.{range}
use album_fs.Album.{write_inode, bmap_direct, AlbumFs, inode_location, read_inode, getattr, bmap}
use album_fs.Device.Memory.{Blocks, memory}
use album_fs.Common.Ends.{is_ok}
use album_fs.Album.Durable.{IsRoomy, HasBitmap}
use album_fs.Album.Durable.Calls.{Change-HasBitmap, write_file}
use album_fs.Album.Sync.{now, sync}
use album_fs.Format.{write_bitmap, write_blocks}
use album_fs.Album.Files.{write_from, write, read}
use album_fs.Album.Safety.{Same}
use album_fs.Album.Calls.{Query, Query-Same, read_file}
use album_fs.Album.Gives.{look}
use album_fs.Album.Lookup.{block_of, bmap_lem}
use album_fs.Album.Bytes.{bytes_of}
use album_fs.Album.Dirs.{lookup, find_entry, directory_entries, entries_from}
use album_fs.Album.Refusals.{Refuses, lookup-Refuses}
use album_fs.Album.Contents.{block_bytes, HasBlocks, read_lem}

abbrev superblock : Superblock
superblock = record {
  version = 2;
  block_size = 4096;
  usable_size = 4032;
  total_blocks = 8;
  inode_count = 21;
  bitmap_start = 1;
  inode_table_start = 2;
  data_start = 3;
  root_inode = 1;
  crypto_flags = 0;
  salt = [];
  mem_kib = 0;
  iters = 0;
  parallel = 0;
  carriers = [];
}

abbrev root : Inode
root = record default {
  mode = 0o040755;
  nlink = 2;
  size = 4032;
  block_count = 1;
  direct = 3 ∷ 0 ∷ 0 ∷ 0 ∷ 0 ∷ 0 ∷ 0 ∷ 0 ∷ 0 ∷ 0 ∷ 0 ∷ 0 ∷ [];
}

-- Its second block is a hole.
abbrev file : Inode
file = record default {
  mode = 0o100644;
  nlink = 1;
  size = 5000;
  block_count = 1;
  direct = 4 ∷ 0 ∷ 0 ∷ 0 ∷ 0 ∷ 0 ∷ 0 ∷ 0 ∷ 0 ∷ 0 ∷ 0 ∷ 0 ∷ [];
}

abbrev blocks : Blocks
blocks block =
    if block == 2
    then copy_at (replicate ub 0) 0 (encode root ++ encode file)
    else if block == 4
    then replicate ub 7
    else replicate ub 0

abbrev album : AlbumFs Blocks
album = record { store = blocks; sb = superblock; bitmap = new 8; calls = 0 }

file_found : (getattr memory 2 album).0 ≡ ok file
unfolding getattr read_inode inode_location range copy_at replicate take drop slice encode decode
    from_le copy_all read_pointers
file_found = refl

file-HasBlocks : HasBlocks memory blocks file (λ l. replicate ub (if l == 0 then 7 else 0))
unfolding block_bytes block_of look get_or
file-HasBlocks zero h = (refl, length-replicate {A = ℕ} ub 7)
file-HasBlocks (suc zero) h = (refl, length-replicate {A = ℕ} ub 0)
file-HasBlocks (suc (suc l)) h = absurd (omega arith)

file_kind : is_dir file ≡ false
unfolding is_dir
file_kind = refl

read_lem_example :
    (read memory 2 4030 100 album).0
    ≡ ok (bytes_of (λ l. replicate ub (if l == 0 then 7 else 0)) 4030 (min 5000 4130 - 4030))
read_lem_example =
    read_lem memory album file 4030 100 (λ l. replicate ub (if l == 0 then 7 else 0)) file_kind
      file-HasBlocks 2 tt file_found (omega arith)

bmap_lem_example :
    ((bmap memory 1 false (album, file)).0 ≡ block_of (look memory blocks) file 1)
    × ((bmap memory 1 false (album, file)).1.1 ≡ file)
    × Same memory album (bmap memory 1 false (album, file)).1.0
bmap_lem_example = bmap_lem memory album file 1 tt

abbrev ascii : List ℕ → Bool
ascii name = true

abbrev clock : ℕ → ℕ
clock call = 1000 + call

abbrev query : Query memory ascii album (read memory 2 0 10 album).1
query = read_file 2 0 10

Query-Same_example : Same memory album (read memory 2 0 10 album).1
Query-Same_example = Query-Same memory ascii {fs = album} tt query

-- The same with a root that has no block yet.
abbrev bare_blocks : Blocks
bare_blocks block =
    if block == 2
    then copy_at (replicate ub 0) 0 (encode (record default { mode = 0o040755; nlink = 2 }))
    else replicate ub 0

abbrev bare : AlbumFs Blocks
bare = record { store = bare_blocks; sb = superblock; bitmap = new 8; calls = 0 }

nothing_found : (lookup memory ascii 1 (97 ∷ []) bare).0 ≡ ok none
unfolding lookup directory_entries entries_from find_entry getattr read_inode inode_location range
    copy_at replicate take drop slice encode decode from_le copy_all read_pointers is_dir
nothing_found = refl

lookup-Refuses_example : Refuses memory ascii clock bare 1 (97 ∷ []) 0o644 none
lookup-Refuses_example =
    lookup-Refuses memory ascii clock bare tt 1 (97 ∷ []) 0o644 none nothing_found

album-IsRoomy : IsRoomy memory album
unfolding new
album-IsRoomy = record {
  size = refl;
  order = omega arith;
  inside = omega arith;
  room = omega arith;
}

write_succeeds : is_ok (write memory clock 2 1 (9 ∷ []) album).0 ≡ true
unfolding write write_from getattr read_inode write_inode inode_location range copy_at replicate
    take drop slice encode decode from_le copy_all read_pointers is_dir bmap bmap_direct get_or now
    sync write_bitmap write_blocks new
write_succeeds = refl

Change-HasBitmap_example : HasBitmap memory (write memory clock 2 1 (9 ∷ []) album).1
Change-HasBitmap_example =
    Change-HasBitmap memory ascii clock {fs = album} tt (new-IsValid 8) album-IsRoomy
      (write_file 2 1 (9 ∷ [])) write_succeeds
