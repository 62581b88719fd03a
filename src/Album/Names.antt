-- ===== src/Album/Names.antt =====
-- The operations on names: `create`, `mkdir`, `unlink`, `rmdir` and `rename`.
use album_fs.Common.{
  ℕ, ◌+◌, ◌-◌, ◌%◌, ◌^◌, bit_and, bit_or, Bool, true, false, not, ◌&&◌, ◌||◌, List, [], ◌∷◌, Option,
  none, some, set, ◌==◌, bytes_eq, if◌then◌else◌, ok, err, ensure, ok_or,
}
use album_fs.Common.Actions.{Action, ◌>>=◌, ◌>>◌, lift}
use album_fs.Fs.{FsError, not_found, exists, not_empty, ub}
use album_fs.Inode.{Inode, is_dir, default, s_ifreg, s_ifdir}
use album_fs.Dirent.{file_type_file, file_type_dir, initial_directory_block, dot, dotdot}
use album_fs.Device.{BlockDevice}
use album_fs.Album.{
  AlbumFs, on_store, getattr, write_inode, alloc_inode, free_inode, allocate_block,
}
use album_fs.Album.Release.{free_all_blocks}
use album_fs.Album.Files.{on_copy}
use album_fs.Album.Dirs.{lookup, readdir, add_dir_entry, remove_dir_entry, update_dotdot}
use album_fs.Album.Sync.{now, sync}

abbrev pub is_some : {A : Type 0} → Option A → Bool
is_some o = elim o [ none ↦ false | some a ↦ true ]

-- Whether a directory has an entry but "." and "..".
unfoldable pub has_entries : List (ℕ × List ℕ × ℕ) → Bool
has_entries [] = false
has_entries ((ino, name, file_type) ∷ rest) =
    (not (bytes_eq name dot) && not (bytes_eq name dotdot)) || has_entries rest

-- The inode of a new file and of a new directory.
abbrev pub new_file : ℕ → ℕ → Inode
new_file mode now = record default {
  mode = bit_or s_ifreg (bit_and mode 0o7777);
  nlink = 1;
  atime = now;
  mtime = now;
  ctime = now;
}

abbrev pub new_directory : ℕ → ℕ → ℕ → Inode
new_directory mode now data_block = record default {
  mode = bit_or s_ifdir (bit_and mode 0o7777);
  nlink = 2;
  size = ub;
  atime = now;
  mtime = now;
  ctime = now;
  block_count = 1;
  direct = set default.direct 0 data_block;
}

-- `saturating_sub(1)` is the subtraction on ℕ.
abbrev pub fewer_links : Inode → ℕ → Inode
fewer_links inode now = record inode { nlink = inode.nlink - 1; mtime = now; ctime = now }

abbrev pub more_links : Inode → ℕ → Inode
more_links inode now = record inode { nlink = (inode.nlink + 1) % 2 ^ 32; mtime = now; ctime = now }

module _ {S : Type 0} (d : BlockDevice S) (is_utf8 : List ℕ → Bool) (clock : ℕ → ℕ) where
  unfoldable pub create : ℕ → List ℕ → ℕ → Action FsError (AlbumFs S) ℕ
  create parent_ino name mode = do
    found ← lookup d is_utf8 parent_ino name
    lift (ensure (not (is_some found)) exists)
    ino ← alloc_inode d
    time ← now clock
    write_inode d ino (new_file mode time)
    add_dir_entry d is_utf8 clock parent_ino ino name file_type_file
    sync d
    lift (ok ino)

  unfoldable pub mkdir : ℕ → List ℕ → ℕ → Action FsError (AlbumFs S) ℕ
  mkdir parent_ino name mode = do
    found ← lookup d is_utf8 parent_ino name
    lift (ensure (not (is_some found)) exists)
    before ← getattr d parent_ino
    lift (ensure (is_dir before) FsError.not_dir)
    ino ← alloc_inode d
    data_block ← allocate_block d
    entries ← lift (initial_directory_block ino parent_ino)
    on_store d (d.write_block data_block entries)
    time ← now clock
    write_inode d ino (new_directory mode time data_block)
    add_dir_entry d is_utf8 clock parent_ino ino name file_type_dir
    parent ← getattr d parent_ino
    write_inode d parent_ino (more_links parent time)
    sync d
    lift (ok ino)

  -- Frees the blocks of an inode, and the inode.
  abbrev pub release_inode : ℕ → Inode → Action FsError (AlbumFs S) (Unit {0})
  release_inode ino inode = do on_copy d inode (free_all_blocks d); free_inode d ino

  unfoldable pub unlink : ℕ → List ℕ → Action FsError (AlbumFs S) (Unit {0})
  unlink parent_ino name = do
    found ← lookup d is_utf8 parent_ino name
    ino ← lift (ok_or found not_found)
    inode ← getattr d ino
    lift (ensure (not (is_dir inode)) FsError.is_dir)
    remove_dir_entry d is_utf8 clock parent_ino name
    let left = record inode { nlink = inode.nlink - 1 }
    if left.nlink == 0
        then release_inode ino left
        else (do time ← now clock; write_inode d ino (record left { ctime = time }))
    sync d

  unfoldable pub rmdir : ℕ → List ℕ → Action FsError (AlbumFs S) (Unit {0})
  rmdir parent_ino name = do
    found ← lookup d is_utf8 parent_ino name
    ino ← lift (ok_or found not_found)
    inode ← getattr d ino
    lift (ensure (is_dir inode) FsError.not_dir)
    entries ← readdir d is_utf8 ino
    lift (ensure (not (has_entries entries)) not_empty)
    remove_dir_entry d is_utf8 clock parent_ino name
    release_inode ino inode
    parent ← getattr d parent_ino
    time ← now clock
    write_inode d parent_ino (fewer_links parent time)
    sync d

  -- What stands at the new name is removed where its kind fits the source's.
  unfoldable pub replace : Inode → Inode → ℕ → List ℕ → Action FsError (AlbumFs S) (Unit {0})
  replace source target new_parent_ino new_name =
      if is_dir source
      then (if is_dir target then rmdir new_parent_ino new_name else lift (err FsError.not_dir))
      else (if is_dir target then lift (err FsError.is_dir) else unlink new_parent_ino new_name)

  -- The part of `rename` for a directory that changes its parent.
  unfoldable pub move_directory : Inode → ℕ → ℕ → Action FsError (AlbumFs S) (Unit {0})
  move_directory source parent_ino new_parent_ino = do
    update_dotdot d is_utf8 source new_parent_ino
    time ← now clock
    old_parent ← getattr d parent_ino
    write_inode d parent_ino (fewer_links old_parent time)
    new_parent ← getattr d new_parent_ino
    write_inode d new_parent_ino (more_links new_parent time)

  -- `rename` from the removal of the target on.
  unfoldable pub move_entry :
      ℕ → Inode → ℕ → List ℕ → ℕ → List ℕ → Action FsError (AlbumFs S) (Unit {0})
  move_entry ino source parent_ino name new_parent_ino new_name = do
    add_dir_entry d is_utf8 clock new_parent_ino ino new_name
        (if is_dir source then file_type_dir else file_type_file)
    remove_dir_entry d is_utf8 clock parent_ino name
    if is_dir source && not (parent_ino == new_parent_ino)
        then move_directory source parent_ino new_parent_ino
        else lift (ok tt)
    sync d

  unfoldable pub rename : ℕ → List ℕ → ℕ → List ℕ → Action FsError (AlbumFs S) (Unit {0})
  rename parent_ino name new_parent_ino new_name =
      if parent_ino == new_parent_ino && bytes_eq name new_name then lift (ok tt) else (do
        found ← lookup d is_utf8 parent_ino name
        ino ← lift (ok_or found not_found)
        source ← getattr d ino
        target ← lookup d is_utf8 new_parent_ino new_name
        elim target [
          | none ↦ move_entry ino source parent_ino name new_parent_ino new_name
          | some target_ino ↦ if target_ino == ino then lift (ok tt) else (do
            there ← getattr d target_ino
            replace source there new_parent_ino new_name
            move_entry ino source parent_ino name new_parent_ino new_name)
        ])
