-- ===== src/Album/Calls.antt =====
-- The calls of the file system that only look.
use album_fs.Common.{ℕ, List, Bool}
use album_fs.Device.{BlockDevice}
use album_fs.Album.{AlbumFs, getattr, used_inodes}
use album_fs.Album.Files.{read}
use album_fs.Album.Dirs.{lookup, readdir}
use album_fs.Album.Keeps.{getattr-Keeps, used_inodes-Keeps}
use album_fs.Album.Keeps.Files.{read-Keeps}
use album_fs.Album.Keeps.Dirs.{lookup-Keeps, readdir-Keeps}
use album_fs.Album.Safety.{Same, start, reads-Same}

module _ {S : Type 0} (d : BlockDevice S) (is_utf8 : List ℕ → Bool) where
  -- A call that looks, with the file system that it leaves.
  pub data Query (fs : AlbumFs S) : AlbumFs S → Type 0 where
    get_attributes : (ino : ℕ) → Query fs (getattr d ino fs).1
    count_inodes : Query fs (used_inodes d fs).1
    look_up : (parent_ino : ℕ) (name : List ℕ) → Query fs (lookup d is_utf8 parent_ino name fs).1
    list_entries : (ino : ℕ) → Query fs (readdir d is_utf8 ino fs).1
    read_file : (ino offset len : ℕ) → Query fs (read d ino offset len fs).1

  -- A query on a well-formed device leaves it well formed, and changes neither a block nor the superblock
  -- nor the bitmap, whether it succeeds or not.
  pub Query-Same : {fs fs' : AlbumFs S} → d.IsValid fs.store → Query fs fs' → Same d fs fs'
  Query-Same {fs = fs} v (get_attributes ino) =
      (getattr-Keeps d (reads-Same d fs) ino).keeps fs (start d fs v)
  Query-Same {fs = fs} v count_inodes =
      (used_inodes-Keeps d (reads-Same d fs)).keeps fs (start d fs v)
  Query-Same {fs = fs} v (look_up parent_ino name) =
      (lookup-Keeps d is_utf8 (reads-Same d fs) parent_ino name).keeps fs (start d fs v)
  Query-Same {fs = fs} v (list_entries ino) =
      (readdir-Keeps d is_utf8 (reads-Same d fs) ino).keeps fs (start d fs v)
  Query-Same {fs = fs} v (read_file ino offset len) =
      (read-Keeps d (reads-Same d fs) ino offset len).keeps fs (start d fs v)
