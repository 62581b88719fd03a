-- ===== src/Album/Durable/Calls.antt =====
-- The calls that change the file system and end in `sync`, and the bitmap on the device.
use album_fs.Common.{
  ◌+◌, ltb, ◌^◌, length, ◌≡◌, true, refl, ◌-◌, ℕ, Bool, List, ok, ok_or, ensure, not, ◌-◌, ◌==◌,
}
use album_fs.Common.Keeps.{Keeps-lift, ◌▷◌, Keeps-if}
use album_fs.Device.{BlockDevice}
use album_fs.Fs.{FsError, not_found, exists, not_empty}
use album_fs.Inode.{Inode, is_dir}
use album_fs.Dirent.{file_type_file, file_type_dir, initial_directory_block}
use album_fs.Album.{Action, ltb, AlbumFs}
use album_fs.Album.Keeps.{
  Keeps-change_inode, Keeps-on_fs, Beside, Writes, getattr-Keeps, alloc_inode-Keeps,
  allocate_block-Keeps, reading, write_inode-Keeps,
}
use album_fs.Album.Names.{
  create, mkdir, unlink, rmdir, is_some, has_entries, new_file, new_directory, fewer_links,
  more_links,
}
use album_fs.Album.Keeps.Dirs.{
  put_inode-Keeps, lookup-Keeps, readdir-Keeps, add_dir_entry-Keeps, remove_dir_entry-Keeps,
}
use album_fs.Common.Ends.{Ends, is_ok, ◌▶◌, ◌▷▶◌, Ends-return}
use album_fs.Album.Files.{write, truncate, on_copy}
use album_fs.Album.Keeps.Names.{release_inode-Keeps}
use album_fs.Album.Keeps.Files.{write_from-Keeps, shrink-Keeps}
use album_fs.Album.Safety.{Sound, writes-Sound}
use album_fs.Album.Durable.{manifest, sync, HasBitmap, IsRoomy, sync-Ends}
use album_fs.Album.{Mapping, on_fs}
use album_fs.Bitmap.Invariant

begin :
    {S : Type 0} (d : BlockDevice S) (fs : AlbumFs S)
    → d.IsValid fs.store
    → Invariant.IsValid fs.bitmap
    → Sound d fs fs
begin d fs v b = record { valid = v; total = refl; sb = refl; bitmap = b; size = refl }

module _ {S : Type 0} (d : BlockDevice S) (is_utf8 : List ℕ → Bool) (clock : ℕ → ℕ)
    (fs0 : AlbumFs S) (roomy : IsRoomy d fs0) where
  -- The same beside an inode.
  Ends-on_fs :
      {A : Type 0} {act : Action FsError (AlbumFs S) A}
      → Ends (Sound d fs0) (HasBitmap d) act
      → Ends (Beside d (Sound d fs0)) (Beside d (HasBitmap d)) (on_fs d act)
  Ends-on_fs h = record { ends = λ (fs, inode) p e. h.ends fs p e }

  Ends-on_copy :
      {A : Type 0} (inode : Inode) {act : Mapping d A}
      → Ends (Beside d (Sound d fs0)) (Beside d (HasBitmap d)) act
      → Ends (Sound d fs0) (HasBitmap d) (on_copy d inode act)
  Ends-on_copy inode h = record { ends = λ fs p e. h.ends (fs, inode) p e }

  w : Writes d clock (Sound d fs0)
  w = writes-Sound d clock fs0

  synced : Ends (Sound d fs0) (HasBitmap d) (sync d)
  synced = sync-Ends d fs0 roomy

  create-Ends :
      (parent_ino : ℕ) (name : List ℕ) (mode : ℕ)
      → Ends (Sound d fs0) (HasBitmap d) (create d is_utf8 clock parent_ino name mode)
  unfolding create
  create-Ends parent_ino name mode =
      lookup-Keeps d is_utf8 (reading d w) parent_ino name ▷▶ λ found.
      Keeps-lift (ensure (not (is_some found)) exists)
      ▶ (alloc_inode-Keeps d (reading d w) ▷▶ λ ino. w.now ▷▶ λ time.
          write_inode-Keeps d w ino (new_file mode time)
          ▶ add_dir_entry-Keeps d w is_utf8 parent_ino ino name file_type_file
          ▶ Ends-return (ok ino) synced)

  mkdir-Ends :
      (parent_ino : ℕ) (name : List ℕ) (mode : ℕ)
      → Ends (Sound d fs0) (HasBitmap d) (mkdir d is_utf8 clock parent_ino name mode)
  unfolding mkdir
  mkdir-Ends parent_ino name mode = lookup-Keeps d is_utf8 (reading d w) parent_ino name ▷▶ λ found.
      Keeps-lift (ensure (not (is_some found)) exists)
      ▶ (getattr-Keeps d (reading d w) parent_ino ▷▶ λ before.
          Keeps-lift (ensure (is_dir before) FsError.not_dir)
          ▶ (alloc_inode-Keeps d (reading d w) ▷▶ λ ino. allocate_block-Keeps d w ▷▶ λ data_block.
              Keeps-lift (initial_directory_block ino parent_ino) ▷▶ λ entries.
              w.write_block data_block entries
              ▶ (w.now ▷▶ λ time.
                  write_inode-Keeps d w ino (new_directory mode time data_block)
                  ▶ add_dir_entry-Keeps d w is_utf8 parent_ino ino name file_type_dir
                  ▶ (getattr-Keeps d (reading d w) parent_ino ▷▶ λ parent.
                      write_inode-Keeps d w parent_ino (more_links parent time)
                      ▶ Ends-return (ok ino) synced))))

  unlink-Ends :
      (parent_ino : ℕ) (name : List ℕ)
      → Ends (Sound d fs0) (HasBitmap d) (unlink d is_utf8 clock parent_ino name)
  unfolding unlink
  unlink-Ends parent_ino name = lookup-Keeps d is_utf8 (reading d w) parent_ino name ▷▶ λ found.
      Keeps-lift (ok_or found not_found) ▷▶ λ ino. getattr-Keeps d (reading d w) ino ▷▶ λ inode.
      Keeps-lift (ensure (not (is_dir inode)) FsError.is_dir)
      ▶ remove_dir_entry-Keeps d w is_utf8 parent_ino name
      ▶ Keeps-if (inode.nlink - 1 == 0)
          (release_inode-Keeps d w is_utf8 ino (record inode { nlink = inode.nlink - 1 }))
          (w.now ▷ λ time.
            write_inode-Keeps d w ino (record inode { nlink = inode.nlink - 1; ctime = time }))
      ▶ synced

  rmdir-Ends :
      (parent_ino : ℕ) (name : List ℕ)
      → Ends (Sound d fs0) (HasBitmap d) (rmdir d is_utf8 clock parent_ino name)
  unfolding rmdir
  rmdir-Ends parent_ino name = lookup-Keeps d is_utf8 (reading d w) parent_ino name ▷▶ λ found.
      Keeps-lift (ok_or found not_found) ▷▶ λ ino. getattr-Keeps d (reading d w) ino ▷▶ λ inode.
      Keeps-lift (ensure (is_dir inode) FsError.not_dir)
      ▶ (readdir-Keeps d is_utf8 (reading d w) ino ▷▶ λ entries.
          Keeps-lift (ensure (not (has_entries entries)) not_empty)
          ▶ remove_dir_entry-Keeps d w is_utf8 parent_ino name
          ▶ release_inode-Keeps d w is_utf8 ino inode
          ▶ (getattr-Keeps d (reading d w) parent_ino ▷▶ λ parent.
              w.now ▷▶ λ time. write_inode-Keeps d w parent_ino (fewer_links parent time) ▶ synced))

  write-Ends :
      (ino offset : ℕ) (bytes : List ℕ)
      → Ends (Sound d fs0) (HasBitmap d) (write d clock ino offset bytes)
  unfolding write
  write-Ends ino offset bytes =
      let end = offset + length bytes in
      getattr-Keeps d (reading d w) ino ▷▶ λ inode.
      Keeps-lift (ensure (not (is_dir inode)) FsError.is_dir)
      ▶ Keeps-lift (ensure (ltb end (2 ^ 64)) manifest)
      ▶ Ends-on_copy inode (
          write_from-Keeps d w (length bytes) bytes offset 0 ▷▶ λ consumed.
          Keeps-on_fs d w.now ▷▶ λ timestamp.
          Keeps-change_inode d (Sound d fs0) _
          ▶ put_inode-Keeps d w ino
          ▶ Ends-return (ok consumed) (Ends-on_fs synced))

  truncate-Ends :
      (ino new_size : ℕ) → Ends (Sound d fs0) (HasBitmap d) (truncate d clock ino new_size)
  unfolding truncate
  truncate-Ends ino new_size = getattr-Keeps d (reading d w) ino ▷▶ λ inode.
      Keeps-lift (ensure (not (is_dir inode)) FsError.is_dir)
      ▶ Ends-on_copy inode (
          Keeps-if (ltb new_size inode.size) (shrink-Keeps d w new_size) (Keeps-lift (ok tt))
          ▶ (Keeps-on_fs d w.now ▷▶ λ timestamp.
              Keeps-change_inode d (Sound d fs0) _ ▶ put_inode-Keeps d w ino ▶ Ends-on_fs synced))

module _ {S : Type 0} (d : BlockDevice S) (is_utf8 : List ℕ → Bool) (clock : ℕ → ℕ) where
  -- A call that changes the file system, with whether it succeeds and the file system that it leaves.
  pub data Change (fs : AlbumFs S) : Bool → AlbumFs S → Type 0 where
    create_file :
        (parent_ino : ℕ) (name : List ℕ) (mode : ℕ)
        → Change fs
            (is_ok (create d is_utf8 clock parent_ino name mode fs).0)
            (create d is_utf8 clock parent_ino name mode fs).1
    make_directory :
        (parent_ino : ℕ) (name : List ℕ) (mode : ℕ)
        → Change fs
            (is_ok (mkdir d is_utf8 clock parent_ino name mode fs).0)
            (mkdir d is_utf8 clock parent_ino name mode fs).1
    remove_file :
        (parent_ino : ℕ) (name : List ℕ)
        → Change fs
            (is_ok (unlink d is_utf8 clock parent_ino name fs).0)
            (unlink d is_utf8 clock parent_ino name fs).1
    remove_directory :
        (parent_ino : ℕ) (name : List ℕ)
        → Change fs
            (is_ok (rmdir d is_utf8 clock parent_ino name fs).0)
            (rmdir d is_utf8 clock parent_ino name fs).1
    write_file :
        (ino offset : ℕ) (bytes : List ℕ)
        → Change fs
            (is_ok (write d clock ino offset bytes fs).0)
            (write d clock ino offset bytes fs).1
    truncate_file :
        (ino new_size : ℕ)
        → Change fs
            (is_ok (truncate d clock ino new_size fs).0)
            (truncate d clock ino new_size fs).1

  -- On a well-formed device and with a well-formed bitmap for which the device has room, each of `create`,
  -- `mkdir`, `unlink`, `rmdir`, `write` and `truncate` that succeeds has left the bitmap on the device:
  -- loading it gives the bitmap that the file system goes on with.
  pub Change-HasBitmap :
      {fs fs' : AlbumFs S} {done : Bool}
      → d.IsValid fs.store
      → Invariant.IsValid fs.bitmap
      → IsRoomy d fs
      → Change fs done fs'
      → done ≡ true
      → HasBitmap d fs'
  Change-HasBitmap {fs = fs} v b r (create_file parent_ino name mode) e =
      (create-Ends d is_utf8 clock fs r parent_ino name mode).ends fs (begin d fs v b) e
  Change-HasBitmap {fs = fs} v b r (make_directory parent_ino name mode) e =
      (mkdir-Ends d is_utf8 clock fs r parent_ino name mode).ends fs (begin d fs v b) e
  Change-HasBitmap {fs = fs} v b r (remove_file parent_ino name) e =
      (unlink-Ends d is_utf8 clock fs r parent_ino name).ends fs (begin d fs v b) e
  Change-HasBitmap {fs = fs} v b r (remove_directory parent_ino name) e =
      (rmdir-Ends d is_utf8 clock fs r parent_ino name).ends fs (begin d fs v b) e
  Change-HasBitmap {fs = fs} v b r (write_file ino offset bytes) e =
      (write-Ends d is_utf8 clock fs r ino offset bytes).ends fs (begin d fs v b) e
  Change-HasBitmap {fs = fs} v b r (truncate_file ino new_size) e =
      (truncate-Ends d is_utf8 clock fs r ino new_size).ends fs (begin d fs v b) e
