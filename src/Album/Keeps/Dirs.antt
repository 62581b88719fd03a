-- ===== src/Album/Keeps/Dirs.antt =====
-- What the operations on directories and contents keep, and `sync`.
use album_fs.Common.{
  ℕ, zero, suc, true, false, none, some, Bool, List, Option, Result, ok, err, panic, ok_or, ensure,
  length, replicate, ltb, not, div_ceil, ◌+◌, ◌-◌, ◌^◌, ◌||◌,
}
use album_fs.Common.Actions.{Action, continue}
use album_fs.Common.Keeps.{Keeps, Keeps-lift, ◌▷◌, ◌▸◌, Keeps-if, Keeps-found}
use album_fs.Device.{BlockDevice}
use album_fs.Fs.{FsError, manifest, no_space, ub}
use album_fs.Inode.{Inode, is_dir}
use album_fs.Dirent.{required_len}
use album_fs.Format.{write_blocks, write_bitmap, bitmap_part}
use album_fs.Album.{AlbumFs, on_store, on_fs, write_inode}
use album_fs.Album.Sync.{sync}
use album_fs.Album.Keeps.{
  Reads, Writes, Beside, Keeps-on_fs, Keeps-change_inode, getattr-Keeps, bmap_read-Keeps, reading,
  write_inode-Keeps, bmap-Keeps,
}
use album_fs.Album.Keeps.Files.{Keeps-on_copy, write_from-Keeps, shrink-Keeps}
use album_fs.Album.Files.{write, truncate}
use album_fs.Album.Dirs.{
  entries_at, entries_from, directory_entries, find_entry, lookup, live_entries, readdir, add_from,
  add_block, remove_from, update_dotdot, bump_directory, add_dir_entry, remove_dir_entry,
}
use album_fs.DirBlock.{add_in_block, remove_in_block, redirect_dotdot, put_entry}

module _ {S : Type 0} (d : BlockDevice S) where
  module _ (is_utf8 : List ℕ → Bool) {P : AlbumFs S → Type 0} (r : Reads d P) where
    entries_at-Keeps :
        (found : Option ℕ) (logical : ℕ) → Keeps (Beside d P) (entries_at d is_utf8 found logical)
    unfolding entries_at
    entries_at-Keeps none logical = Keeps-lift _
    entries_at-Keeps (some block) logical =
        Keeps-on_fs d (r.read_block block) ▷ λ payload. Keeps-lift _

    entries_from-Keeps : (logical n : ℕ) → Keeps (Beside d P) (entries_from d is_utf8 logical n)
    unfolding entries_from
    entries_from-Keeps logical zero = Keeps-lift _
    entries_from-Keeps logical (suc n) = bmap_read-Keeps d r logical ▷ λ found.
        entries_at-Keeps found logical ▷ λ entries.
        entries_from-Keeps (logical + 1) n ▷ λ rest. Keeps-lift _

    directory_entries-Keeps : (inode : Inode) → Keeps P (directory_entries d is_utf8 inode)
    unfolding directory_entries
    directory_entries-Keeps inode =
        Keeps-on_copy d inode (entries_from-Keeps 0 (div_ceil inode.size ub))

    pub lookup-Keeps : (parent_ino : ℕ) (name : List ℕ) → Keeps P (lookup d is_utf8 parent_ino name)
    unfolding lookup
    lookup-Keeps parent_ino name = getattr-Keeps d r parent_ino ▷ λ parent.
        Keeps-lift (ensure (is_dir parent) FsError.not_dir)
        ▸ (directory_entries-Keeps parent ▷ λ entries. Keeps-lift (ok (find_entry name entries)))

    pub readdir-Keeps : (ino : ℕ) → Keeps P (readdir d is_utf8 ino)
    unfolding readdir
    readdir-Keeps ino = getattr-Keeps d r ino ▷ λ inode.
        Keeps-lift (ensure (is_dir inode) FsError.not_dir)
        ▸ (directory_entries-Keeps inode ▷ λ entries. Keeps-lift (ok (live_entries entries)))

  module _ {clock : ℕ → ℕ} {P : AlbumFs S → Type 0} (w : Writes d clock P) where
    stored_then :
        (fs : AlbumFs S) (next : Action FsError S (Unit {0})) (p : Result FsError (Unit {0}) × S)
        → P (record fs { store = p.1 })
        → Keeps P (on_store d next)
        → P (record fs { store = (continue (λ _. next) p).1 })
    stored_then fs next (ok _, s) h k = k.keeps (record fs { store = s }) h
    stored_then fs next (err e, s) h k = h
    stored_then fs next (panic, s) h k = h

    write_blocks-Keeps :
        (bytes : List ℕ) (index block n : ℕ)
        → Keeps P (on_store d (write_blocks d bytes index block n))
    unfolding write_blocks
    write_blocks-Keeps bytes index block zero = record { keeps = λ fs h. h }
    write_blocks-Keeps bytes index block (suc n) = record {
      keeps = λ fs h.
          stored_then fs (write_blocks d bytes (index + 1) (block + 1) n)
            (d.write_block block (bitmap_part bytes index) fs.store)
            ((w.write_block block (bitmap_part bytes index)).keeps fs h)
            (write_blocks-Keeps bytes (index + 1) (block + 1) n);
    }

    pub sync-Keeps : Keeps P (sync d)
    unfolding sync write_bitmap
    sync-Keeps = record {
      keeps = λ fs h.
          (write_blocks-Keeps fs.bitmap.bits 0 fs.sb.bitmap_start
                (fs.sb.inode_table_start - fs.sb.bitmap_start)
              ▸ w.flush).keeps
            fs h;
    }

    pub put_inode-Keeps :
        (ino : ℕ)
        → Keeps {E = FsError} {A = Unit {0}}
            (Beside d P)
            (λ (fs, inode). on_fs d (write_inode d ino inode) (fs, inode))
    put_inode-Keeps ino = record {
      keeps = λ (fs, inode) h. (write_inode-Keeps d w ino inode).keeps fs h;
    }

    pub write-Keeps : (ino offset : ℕ) (bytes : List ℕ) → Keeps P (write d clock ino offset bytes)
    unfolding write
    write-Keeps ino offset bytes =
        let end = offset + length bytes in
        getattr-Keeps d (reading d w) ino ▷ λ inode.
        Keeps-lift (ensure (not (is_dir inode)) FsError.is_dir)
        ▸ Keeps-lift (ensure (ltb end (2 ^ 64)) manifest)
        ▸ Keeps-on_copy d inode (
            write_from-Keeps d w (length bytes) bytes offset 0 ▷ λ consumed.
            Keeps-on_fs d w.now ▷ λ timestamp.
            Keeps-change_inode d P _
            ▸ put_inode-Keeps ino
            ▸ Keeps-on_fs d sync-Keeps
            ▸ Keeps-lift (ok consumed))

    pub truncate-Keeps : (ino new_size : ℕ) → Keeps P (truncate d clock ino new_size)
    unfolding truncate
    truncate-Keeps ino new_size = getattr-Keeps d (reading d w) ino ▷ λ inode.
        Keeps-lift (ensure (not (is_dir inode)) FsError.is_dir)
        ▸ Keeps-on_copy d inode (
            Keeps-if (ltb new_size inode.size) (shrink-Keeps d w new_size) (Keeps-lift (ok tt))
            ▸ (Keeps-on_fs d w.now ▷ λ timestamp.
                Keeps-change_inode d P _ ▸ put_inode-Keeps ino ▸ Keeps-on_fs d sync-Keeps))

    bump_directory-Keeps :
        (is_utf8 : List ℕ → Bool) (ino : ℕ)
        → Keeps (Beside d P) (bump_directory d is_utf8 clock ino)
    unfolding bump_directory
    bump_directory-Keeps is_utf8 ino =
        Keeps-on_fs d w.now ▷ λ timestamp. Keeps-change_inode d P _ ▸ put_inode-Keeps ino

    module _ (is_utf8 : List ℕ → Bool) where
      add_from-Keeps :
          (ino : ℕ) (name : List ℕ) (file_type logical n : ℕ)
          → Keeps (Beside d P) (add_from d is_utf8 ino name file_type logical n)
      unfolding add_from
      add_from-Keeps ino name file_type logical zero = Keeps-lift _
      add_from-Keeps ino name file_type logical (suc n) = bmap-Keeps d w logical false ▷ λ found.
          Keeps-lift (ok_or found manifest) ▷ λ block.
          Keeps-on_fs d (w.read_block block) ▷ λ payload.
          Keeps-lift (add_in_block is_utf8 ub payload ino name file_type 0) ▷ λ changed.
          Keeps-found changed (λ p. Keeps-on_fs d (w.write_block block p) ▸ Keeps-lift (ok true))
            (add_from-Keeps ino name file_type (logical + 1) n)

      add_block-Keeps :
          (ino : ℕ) (name : List ℕ) (file_type logical : ℕ)
          → Keeps (Beside d P) (add_block d is_utf8 ino name file_type logical)
      unfolding add_block
      add_block-Keeps ino name file_type logical = bmap-Keeps d w logical true ▷ λ found.
          Keeps-lift (ok_or found no_space) ▷ λ block.
          Keeps-lift (put_entry (replicate ub 0) ino 0 name file_type ub) ▷ λ payload.
          Keeps-on_fs d (w.write_block block payload) ▸ Keeps-change_inode d P _

      remove_from-Keeps :
          (name : List ℕ) (logical n : ℕ)
          → Keeps (Beside d P) (remove_from d is_utf8 name logical n)
      unfolding remove_from
      remove_from-Keeps name logical zero = Keeps-lift _
      remove_from-Keeps name logical (suc n) = bmap-Keeps d w logical false ▷ λ found.
          Keeps-lift (ok_or found manifest) ▷ λ block.
          Keeps-on_fs d (w.read_block block) ▷ λ payload.
          Keeps-lift (remove_in_block is_utf8 ub payload name none 0) ▷ λ changed.
          Keeps-found changed (λ p. Keeps-on_fs d (w.write_block block p))
            (remove_from-Keeps name (logical + 1) n)

      pub update_dotdot-Keeps :
          (directory : Inode) (new_parent : ℕ)
          → Keeps P (update_dotdot d is_utf8 directory new_parent)
      unfolding update_dotdot
      update_dotdot-Keeps directory new_parent = Keeps-on_copy d directory (
          bmap-Keeps d w 0 false ▷ λ found. Keeps-lift (ok_or found manifest) ▷ λ block.
          Keeps-on_fs d (w.read_block block) ▷ λ payload.
          Keeps-lift (redirect_dotdot is_utf8 ub payload new_parent 0) ▷ λ changed.
          Keeps-on_fs d (w.write_block block changed))

      pub add_dir_entry-Keeps :
          (parent_ino ino : ℕ) (name : List ℕ) (file_type : ℕ)
          → Keeps P (add_dir_entry d is_utf8 clock parent_ino ino name file_type)
      unfolding add_dir_entry
      add_dir_entry-Keeps parent_ino ino name file_type =
          getattr-Keeps d (reading d w) parent_ino ▷ λ parent.
          Keeps-lift (ensure (is_dir parent) FsError.not_dir)
          ▸ Keeps-lift
              (ensure (not (ltb ub (required_len (length name)) || ltb 255 (length name))) no_space)
          ▸ Keeps-on_copy d parent (
              add_from-Keeps ino name file_type 0 (div_ceil parent.size ub) ▷ λ placed.
              Keeps-if placed (Keeps-lift (ok tt))
                (add_block-Keeps ino name file_type (div_ceil parent.size ub))
              ▸ bump_directory-Keeps is_utf8 parent_ino)

      pub remove_dir_entry-Keeps :
          (parent_ino : ℕ) (name : List ℕ)
          → Keeps P (remove_dir_entry d is_utf8 clock parent_ino name)
      unfolding remove_dir_entry
      remove_dir_entry-Keeps parent_ino name = getattr-Keeps d (reading d w) parent_ino ▷ λ parent.
          Keeps-lift (ensure (is_dir parent) FsError.not_dir)
          ▸ Keeps-on_copy d parent (
              remove_from-Keeps name 0 (div_ceil parent.size ub)
              ▸ bump_directory-Keeps is_utf8 parent_ino)
