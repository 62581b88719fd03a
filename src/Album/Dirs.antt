-- ===== src/Album/Dirs.antt =====
-- Directories as files of entries: the list of the entries, `lookup`, `readdir`, and the changes of one
-- entry.
use album_fs.Common.{
  ℕ, zero, suc, ◌+◌, ◌*◌, ◌%◌, ◌^◌, Bool, true, false, not, ◌&&◌, ◌||◌, List, [], ◌∷◌, ◌++◌, length,
  Option, none, some, replicate, ltb, ◌==◌, bytes_eq, div_ceil, if◌then◌else◌, ok, err, ensure,
  ok_or,
}
use album_fs.Common.Actions.{Action, ◌>>=◌, ◌>>◌, lift}
use album_fs.Fs.{FsError, manifest, no_space, not_found, ub}
use album_fs.Inode.{Inode, is_dir}
use album_fs.Dirent.{DirEntry, required_len}
use album_fs.DirBlock.{block_entries, add_in_block, remove_in_block, redirect_dotdot, put_entry}
use album_fs.Device.{BlockDevice}
use album_fs.Album.{AlbumFs, on_store, getattr, write_inode, Mapping, on_fs, change_inode, bmap}
use album_fs.Album.Files.{on_copy}
use album_fs.Album.Sync.{now}

-- The number of the first live entry of that name.
unfoldable pub find_entry : List ℕ → List (ℕ × DirEntry) → Option ℕ
find_entry name [] = none
find_entry name ((position, entry) ∷ rest) =
    if not (entry.inode == 0) && bytes_eq entry.name name
    then some entry.inode
    else find_entry name rest

-- The live entries, as `readdir` gives them.
unfoldable pub live_entries : List (ℕ × DirEntry) → List (ℕ × List ℕ × ℕ)
live_entries [] = []
live_entries ((position, entry) ∷ rest) =
    if not (entry.inode == 0)
    then (entry.inode, entry.name, entry.file_type) ∷ live_entries rest
    else live_entries rest

module _ {S : Type 0} (d : BlockDevice S) (is_utf8 : List ℕ → Bool) where
  -- The entries of one block, none where the directory has a hole.
  unfoldable pub entries_at : Option ℕ → ℕ → Mapping d (List (ℕ × DirEntry))
  entries_at none logical = lift (ok [])
  entries_at (some block) logical = do
    payload ← on_fs d (on_store d (d.read_block block))
    lift (block_entries is_utf8 ub payload (logical * ub) 0)

  -- The blocks from `logical` on, `n` of them.
  unfoldable pub entries_from : ℕ → ℕ → Mapping d (List (ℕ × DirEntry))
  entries_from logical zero = lift (ok [])
  entries_from logical (suc n) = do
    found ← bmap d logical false
    entries ← entries_at found logical
    rest ← entries_from (logical + 1) n
    lift (ok (entries ++ rest))

  unfoldable pub directory_entries : Inode → Action FsError (AlbumFs S) (List (ℕ × DirEntry))
  directory_entries inode = on_copy d inode (entries_from 0 (div_ceil inode.size ub))

  unfoldable pub lookup : ℕ → List ℕ → Action FsError (AlbumFs S) (Option ℕ)
  lookup parent_ino name = do
    parent ← getattr d parent_ino
    lift (ensure (is_dir parent) FsError.not_dir)
    entries ← directory_entries parent
    lift (ok (find_entry name entries))

  unfoldable pub readdir : ℕ → Action FsError (AlbumFs S) (List (ℕ × List ℕ × ℕ))
  readdir ino = do
    inode ← getattr d ino
    lift (ensure (is_dir inode) FsError.not_dir)
    entries ← directory_entries inode
    lift (ok (live_entries entries))

  -- The loop of `add_dir_entry` over `n` blocks: whether one of them took the entry.
  unfoldable pub add_from : ℕ → List ℕ → ℕ → ℕ → ℕ → Mapping d Bool
  add_from ino name file_type logical zero = lift (ok false)
  add_from ino name file_type logical (suc n) = do
    found ← bmap d logical false
    block ← lift (ok_or found manifest)
    payload ← on_fs d (on_store d (d.read_block block))
    changed ← lift (add_in_block is_utf8 ub payload ino name file_type 0)
    elim changed [
      | some p ↦ (do on_fs d (on_store d (d.write_block block p)); lift (ok true))
      | none ↦ add_from ino name file_type (logical + 1) n
    ]

  -- A new block at the end, with the entry alone.
  unfoldable pub add_block : ℕ → List ℕ → ℕ → ℕ → Mapping d (Unit {0})
  add_block ino name file_type logical = do
    found ← bmap d logical true
    block ← lift (ok_or found no_space)
    payload ← lift (put_entry (replicate ub 0) ino 0 name file_type ub)
    on_fs d (on_store d (d.write_block block payload))
    change_inode d (λ inode. record inode { size = (inode.size + ub) % 2 ^ 64 })

  -- The loop of `remove_dir_entry` over `n` blocks.
  unfoldable pub remove_from : List ℕ → ℕ → ℕ → Mapping d (Unit {0})
  remove_from name logical zero = lift (err not_found)
  remove_from name logical (suc n) = do
    found ← bmap d logical false
    block ← lift (ok_or found manifest)
    payload ← on_fs d (on_store d (d.read_block block))
    changed ← lift (remove_in_block is_utf8 ub payload name none 0)
    elim changed [
      | some p ↦ on_fs d (on_store d (d.write_block block p))
      | none ↦ remove_from name (logical + 1) n
    ]

  unfoldable pub update_dotdot : Inode → ℕ → Action FsError (AlbumFs S) (Unit {0})
  update_dotdot directory new_parent = on_copy d directory (do
    found ← bmap d 0 false
    block ← lift (ok_or found manifest)
    payload ← on_fs d (on_store d (d.read_block block))
    changed ← lift (redirect_dotdot is_utf8 ub payload new_parent 0)
    on_fs d (on_store d (d.write_block block changed)))

  module _ (clock : ℕ → ℕ) where
    unfoldable pub bump_directory : ℕ → Mapping d (Unit {0})
    bump_directory ino = do
      timestamp ← on_fs d (now clock)
      change_inode d (λ inode. record inode { mtime = timestamp; ctime = timestamp })
      (λ (fs, inode). on_fs d (write_inode d ino inode) (fs, inode))

    unfoldable pub add_dir_entry : ℕ → ℕ → List ℕ → ℕ → Action FsError (AlbumFs S) (Unit {0})
    add_dir_entry parent_ino ino name file_type = do
      parent ← getattr d parent_ino
      lift (ensure (is_dir parent) FsError.not_dir)
      lift (ensure (not (ltb ub (required_len (length name)) || ltb 255 (length name))) no_space)
      let block_count = div_ceil parent.size ub
      on_copy d parent (do
        placed ← add_from ino name file_type 0 block_count
        if placed then lift (ok tt) else add_block ino name file_type block_count
        bump_directory parent_ino)

    unfoldable pub remove_dir_entry : ℕ → List ℕ → Action FsError (AlbumFs S) (Unit {0})
    remove_dir_entry parent_ino name = do
      parent ← getattr d parent_ino
      lift (ensure (is_dir parent) FsError.not_dir)
      on_copy d parent (do remove_from name 0 (div_ceil parent.size ub); bump_directory parent_ino)
