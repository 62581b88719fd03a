-- ===== src/Album/Keeps/Names.antt =====
-- What the operations on names keep.
use album_fs.Common.{
  bytes_eq, ℕ, Bool, List, ok, err, ok_or, ensure, not, if◌then◌else◌, ◌-◌, ◌==◌, ◌&&◌,
}
use album_fs.Common.Keeps.{Keeps, Keeps-lift, ◌▷◌, ◌▸◌, Keeps-if, Keeps-option}
use album_fs.Device.{BlockDevice}
use album_fs.Fs.{FsError, not_found, exists, not_empty}
use album_fs.Inode.{Inode, is_dir}
use album_fs.Dirent.{file_type_file, file_type_dir, initial_directory_block}
use album_fs.Album.{AlbumFs}
use album_fs.Album.Keeps.{
  Writes, getattr-Keeps, alloc_inode-Keeps, free_inode-Keeps, allocate_block-Keeps, reading,
  write_inode-Keeps,
}
use album_fs.Album.Keeps.Files.{Keeps-on_copy, free_all_blocks-Keeps}
use album_fs.Album.Names.{
  create, mkdir, unlink, rmdir, rename, replace, move_directory, move_entry, release_inode, is_some,
  has_entries, new_file, new_directory, fewer_links, more_links,
}
use album_fs.Album.Keeps.Dirs.{
  sync-Keeps, lookup-Keeps, readdir-Keeps, add_dir_entry-Keeps, remove_dir_entry-Keeps,
  update_dotdot-Keeps,
}

module _ {S : Type 0} (d : BlockDevice S) {clock : ℕ → ℕ} {P : AlbumFs S → Type 0}
    (w : Writes d clock P) (is_utf8 : List ℕ → Bool) where
  pub release_inode-Keeps :
      (ino : ℕ) (inode : Inode) → Keeps P (release_inode d is_utf8 clock ino inode)
  release_inode-Keeps ino inode =
      Keeps-on_copy d inode (free_all_blocks-Keeps d w) ▸ free_inode-Keeps d w ino

  pub create-Keeps :
      (parent_ino : ℕ) (name : List ℕ) (mode : ℕ)
      → Keeps P (create d is_utf8 clock parent_ino name mode)
  unfolding create
  create-Keeps parent_ino name mode =
      lookup-Keeps d is_utf8 (reading d w) parent_ino name ▷ λ found.
      Keeps-lift (ensure (not (is_some found)) exists)
      ▸ (alloc_inode-Keeps d (reading d w) ▷ λ ino. w.now ▷ λ time.
          write_inode-Keeps d w ino (new_file mode time)
          ▸ add_dir_entry-Keeps d w is_utf8 parent_ino ino name file_type_file
          ▸ sync-Keeps d w
          ▸ Keeps-lift (ok ino))

  pub mkdir-Keeps :
      (parent_ino : ℕ) (name : List ℕ) (mode : ℕ)
      → Keeps P (mkdir d is_utf8 clock parent_ino name mode)
  unfolding mkdir
  mkdir-Keeps parent_ino name mode = lookup-Keeps d is_utf8 (reading d w) parent_ino name ▷ λ found.
      Keeps-lift (ensure (not (is_some found)) exists)
      ▸ (getattr-Keeps d (reading d w) parent_ino ▷ λ before.
          Keeps-lift (ensure (is_dir before) FsError.not_dir)
          ▸ (alloc_inode-Keeps d (reading d w) ▷ λ ino. allocate_block-Keeps d w ▷ λ data_block.
              Keeps-lift (initial_directory_block ino parent_ino) ▷ λ entries.
              w.write_block data_block entries
              ▸ (w.now ▷ λ time.
                  write_inode-Keeps d w ino (new_directory mode time data_block)
                  ▸ add_dir_entry-Keeps d w is_utf8 parent_ino ino name file_type_dir
                  ▸ (getattr-Keeps d (reading d w) parent_ino ▷ λ parent.
                      write_inode-Keeps d w parent_ino (more_links parent time)
                      ▸ sync-Keeps d w
                      ▸ Keeps-lift (ok ino)))))

  pub unlink-Keeps :
      (parent_ino : ℕ) (name : List ℕ) → Keeps P (unlink d is_utf8 clock parent_ino name)
  unfolding unlink
  unlink-Keeps parent_ino name = lookup-Keeps d is_utf8 (reading d w) parent_ino name ▷ λ found.
      Keeps-lift (ok_or found not_found) ▷ λ ino. getattr-Keeps d (reading d w) ino ▷ λ inode.
      Keeps-lift (ensure (not (is_dir inode)) FsError.is_dir)
      ▸ remove_dir_entry-Keeps d w is_utf8 parent_ino name
      ▸ Keeps-if (inode.nlink - 1 == 0)
          (release_inode-Keeps ino (record inode { nlink = inode.nlink - 1 }))
          (w.now ▷ λ time.
            write_inode-Keeps d w ino (record inode { nlink = inode.nlink - 1; ctime = time }))
      ▸ sync-Keeps d w

  pub rmdir-Keeps :
      (parent_ino : ℕ) (name : List ℕ) → Keeps P (rmdir d is_utf8 clock parent_ino name)
  unfolding rmdir
  rmdir-Keeps parent_ino name = lookup-Keeps d is_utf8 (reading d w) parent_ino name ▷ λ found.
      Keeps-lift (ok_or found not_found) ▷ λ ino. getattr-Keeps d (reading d w) ino ▷ λ inode.
      Keeps-lift (ensure (is_dir inode) FsError.not_dir)
      ▸ (readdir-Keeps d is_utf8 (reading d w) ino ▷ λ entries.
          Keeps-lift (ensure (not (has_entries entries)) not_empty)
          ▸ remove_dir_entry-Keeps d w is_utf8 parent_ino name
          ▸ release_inode-Keeps ino inode
          ▸ (getattr-Keeps d (reading d w) parent_ino ▷ λ parent. w.now ▷ λ time.
              write_inode-Keeps d w parent_ino (fewer_links parent time) ▸ sync-Keeps d w))

  replace-Keeps :
      (source target : Inode) (new_parent_ino : ℕ) (new_name : List ℕ)
      → Keeps P (replace d is_utf8 clock source target new_parent_ino new_name)
  unfolding replace
  replace-Keeps source target new_parent_ino new_name =
      Keeps-if (is_dir source)
        (Keeps-if (is_dir target) (rmdir-Keeps new_parent_ino new_name)
          (Keeps-lift (err FsError.not_dir)))
        (Keeps-if (is_dir target) (Keeps-lift (err FsError.is_dir))
          (unlink-Keeps new_parent_ino new_name))

  move_directory-Keeps :
      (source : Inode) (parent_ino new_parent_ino : ℕ)
      → Keeps P (move_directory d is_utf8 clock source parent_ino new_parent_ino)
  unfolding move_directory
  move_directory-Keeps source parent_ino new_parent_ino =
      update_dotdot-Keeps d w is_utf8 source new_parent_ino
      ▸ (w.now ▷ λ time. getattr-Keeps d (reading d w) parent_ino ▷ λ old_parent.
          write_inode-Keeps d w parent_ino (fewer_links old_parent time)
          ▸ (getattr-Keeps d (reading d w) new_parent_ino ▷ λ new_parent.
              write_inode-Keeps d w new_parent_ino (more_links new_parent time)))

  move_entry-Keeps :
      (ino : ℕ) (source : Inode) (parent_ino : ℕ) (name : List ℕ) (new_parent_ino : ℕ)
      (new_name : List ℕ)
      → Keeps P (move_entry d is_utf8 clock ino source parent_ino name new_parent_ino new_name)
  unfolding move_entry
  move_entry-Keeps ino source parent_ino name new_parent_ino new_name =
      add_dir_entry-Keeps d w is_utf8 new_parent_ino ino new_name
        (if is_dir source then file_type_dir else file_type_file)
      ▸ remove_dir_entry-Keeps d w is_utf8 parent_ino name
      ▸ Keeps-if (is_dir source && not (parent_ino == new_parent_ino))
          (move_directory-Keeps source parent_ino new_parent_ino) (Keeps-lift (ok tt))
      ▸ sync-Keeps d w

  pub rename-Keeps :
      (parent_ino : ℕ) (name : List ℕ) (new_parent_ino : ℕ) (new_name : List ℕ)
      → Keeps P (rename d is_utf8 clock parent_ino name new_parent_ino new_name)
  unfolding rename
  rename-Keeps parent_ino name new_parent_ino new_name =
      Keeps-if (parent_ino == new_parent_ino && bytes_eq name new_name) (Keeps-lift (ok tt)) (
        lookup-Keeps d is_utf8 (reading d w) parent_ino name ▷ λ found.
        Keeps-lift (ok_or found not_found) ▷ λ ino. getattr-Keeps d (reading d w) ino ▷ λ source.
        lookup-Keeps d is_utf8 (reading d w) new_parent_ino new_name ▷ λ target.
        Keeps-option target (move_entry-Keeps ino source parent_ino name new_parent_ino new_name)
          λ target_ino. Keeps-if (target_ino == ino) (Keeps-lift (ok tt)) (
            getattr-Keeps d (reading d w) target_ino ▷ λ there.
            replace-Keeps source there new_parent_ino new_name
            ▸ move_entry-Keeps ino source parent_ino name new_parent_ino new_name))
