-- ===== src/DirBlock.antt =====
-- One block of a directory, as fs/album.rs walks it: the bodies of the loops of `directory_entries`,
-- `add_dir_entry`, `remove_dir_entry` and `update_dotdot` over a payload of 4032 bytes.
--
-- `while offset < UB` runs on fuel, one unit for each entry. An entry has 12 bytes at least, so 4032
-- units are more than a walk can use. Running out would show as a panic.
pub mod Entry
pub mod Walk
pub mod Steps
pub mod Gap
mod Examples
use album_fs.Common.{
  ℕ, zero, suc, ◌+◌, ◌-◌, ◌*◌, Bool, true, false, not, ◌&&◌, List, [], ◌∷◌, length, Option, none,
  some, replicate, slice, copy_at, to_le, from_le, ltb, leb, ◌==◌, bytes_eq, if◌then◌else◌, Result,
  ok, err, panic, ◌>>=◌,
}
use album_fs.Fs.{FsError, manifest, ub, range, copy_into}
use album_fs.Dirent.{DirEntry, required_len, new, encode_into, decode, dotdot}

-- A new entry written over a record.
unfoldable pub put_entry : List ℕ → ℕ → ℕ → List ℕ → ℕ → ℕ → Result FsError (List ℕ)
put_entry payload ino offset name file_type rec_len = do
  entry ← new ino name file_type rec_len
  target ← range payload offset (offset + rec_len)
  bytes ← encode_into entry target
  copy_into payload offset bytes

-- What one record offers to an entry that needs `needed` bytes: nothing, or the new payload. The
-- subtraction panics below zero.
unfoldable pub try_record :
    List ℕ → ℕ → List ℕ → ℕ → ℕ → DirEntry → Result FsError (Option (List ℕ))
try_record payload ino name file_type offset entry =
    let needed = required_len (length name) in
    let minimal = required_len (length entry.name) in
    if entry.inode == 0 && leb needed entry.rec_len
    then (put_entry payload ino offset name file_type entry.rec_len >>= λ p. ok (some p))
    else if entry.inode == 0
    then ok none
    else if ltb entry.rec_len minimal
    then panic
    else if leb needed (entry.rec_len - minimal)
    then (copy_into payload (offset + 8) (to_le 2 minimal) >>= λ shorter.
        put_entry shorter ino (offset + minimal) name file_type (entry.rec_len - minimal) >>= λ p.
        ok (some p))
    else ok none

-- The record of the entry found at `offset` joins that of the live entry before it in the block,
-- or is marked free.
unfoldable pub drop_record : List ℕ → Option ℕ → ℕ → DirEntry → Result FsError (List ℕ)
drop_record payload (some previous) offset entry =
    range payload (previous + 8) (previous + 10) >>= λ old_len.
    copy_into payload (previous + 8) (to_le 2 (from_le old_len + entry.rec_len))
drop_record payload none offset entry = copy_into payload offset (replicate 8 0)

module _ (is_utf8 : List ℕ → Bool) where
  -- The entries of a block with their positions, `base` being the position of the block.
  unfoldable pub block_entries : ℕ → List ℕ → ℕ → ℕ → Result FsError (List (ℕ × DirEntry))
  block_entries zero payload base offset = if ltb offset ub then panic else ok []
  block_entries (suc fuel) payload base offset = elim (ltb offset ub) [
    | false ↦ ok []
    | true ↦ decode is_utf8 payload offset >>= λ entry.
        block_entries fuel payload base (offset + entry.rec_len) >>= λ rest.
        ok ((base + offset, entry) ∷ rest)
  ]

  -- `none` where no record of the block has room.
  unfoldable pub add_in_block : ℕ → List ℕ → ℕ → List ℕ → ℕ → ℕ → Result FsError (Option (List ℕ))
  add_in_block zero payload ino name file_type offset = if ltb offset ub then panic else ok none
  add_in_block (suc fuel) payload ino name file_type offset = elim (ltb offset ub) [
    | false ↦ ok none
    | true ↦ decode is_utf8 payload offset >>= λ entry.
        try_record payload ino name file_type offset entry >>= λ found. elim found [
          | some p ↦ ok (some p)
          | none ↦ add_in_block fuel payload ino name file_type (offset + entry.rec_len)
        ]
  ]

  -- `none` where the block has no live entry of that name.
  unfoldable pub remove_in_block :
      ℕ → List ℕ → List ℕ → Option ℕ → ℕ → Result FsError (Option (List ℕ))
  remove_in_block zero payload name previous offset = if ltb offset ub then panic else ok none
  remove_in_block (suc fuel) payload name previous offset = elim (ltb offset ub) [
    | false ↦ ok none
    | true ↦ decode is_utf8 payload offset >>= λ entry.
        elim (not (entry.inode == 0) && bytes_eq entry.name name) [
          | true ↦ drop_record payload previous offset entry >>= λ p. ok (some p)
          | false ↦
              remove_in_block fuel payload name (if entry.inode == 0 then previous else some offset)
                (offset + entry.rec_len)
        ]
  ]

  -- The loop of `update_dotdot`: the inode number of the live "..".
  unfoldable pub redirect_dotdot : ℕ → List ℕ → ℕ → ℕ → Result FsError (List ℕ)
  redirect_dotdot zero payload parent offset = if ltb offset ub then panic else err manifest
  redirect_dotdot (suc fuel) payload parent offset = elim (ltb offset ub) [
    | false ↦ err manifest
    | true ↦ decode is_utf8 payload offset >>= λ entry.
        elim (not (entry.inode == 0) && bytes_eq entry.name dotdot) [
          | true ↦ copy_into payload offset (to_le 8 parent)
          | false ↦ redirect_dotdot fuel payload parent (offset + entry.rec_len)
        ]
  ]
