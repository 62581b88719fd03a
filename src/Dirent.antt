-- ===== src/Dirent.antt =====
-- Directory entries of fs/dirent.rs. A name is the list of its UTF-8 bytes; `std::str::from_utf8`
-- is a parameter, the test whether bytes are UTF-8.
pub mod RoundTrip
mod Examples
use album_fs.Common.{
  ℕ, ◌+◌, ◌-◌, ◌*◌, ◌/◌, ◌%◌, ◌<◌, ◌≤◌, ◌≡◌, Bool, true, ◌&&◌, ◌||◌, not, List, [], ◌∷◌, length,
  All, ltb, ◌==◌, div_ceil, ensure, ◌>>=◌, ◌>>◌, if◌then◌else◌, replicate, slice, get_or, copy_at,
  Write, copy_all, to_le, from_le, IsByte, IsU16, IsU64, Result, ok, err,
}
use album_fs.Fs.{FsError, manifest, ub, range, index}

abbrev pub file_type_file : ℕ
file_type_file = 1

abbrev pub file_type_dir : ℕ
file_type_dir = 2

pub record DirEntry : Type 0 where
  pub inode : ℕ
  pub rec_len : ℕ
  pub name : List ℕ
  pub file_type : ℕ

abbrev pub required_len : ℕ → ℕ
required_len name_len = div_ceil (12 + name_len) 4 * 4

unfoldable pub new : ℕ → List ℕ → ℕ → ℕ → Result FsError DirEntry
new inode name file_type rec_len =
    if ltb 255 (length name) || ltb rec_len (required_len (length name)) || ltb 65535 rec_len
    then err manifest
    else ok (record { inode = inode; rec_len = rec_len; name = name; file_type = file_type })

abbrev pub entry_writes : DirEntry → List Write
entry_writes e =
    (0, to_le 8 e.inode)
    ∷ (8, to_le 2 e.rec_len)
    ∷ (10, length e.name % 256 ∷ [])
    ∷ (11, e.file_type ∷ [])
    ∷ (12, e.name)
    ∷ []

-- The target is a mutable slice: the result is the slice after the call.
unfoldable pub encode_into : DirEntry → List ℕ → Result FsError (List ℕ)
encode_into e target =
    if ltb (length target) e.rec_len || ltb e.rec_len (required_len (length e.name))
    then err manifest
    else ok (copy_all (copy_at target 0 (replicate e.rec_len 0)) (entry_writes e))

-- The offset is an index into a block, so `checked_add` does not overflow. Reading past the end would panic.
unfoldable pub decode : (List ℕ → Bool) → List ℕ → ℕ → Result FsError DirEntry
decode is_utf8 block offset = do
  let header_end = offset + 12
  ensure (not (ltb (length block) header_end)) manifest
  inode ← range block offset (offset + 8)
  stored_len ← range block (offset + 8) (offset + 10)
  name_len ← index block (offset + 10)
  let rec_len = from_le stored_len
  ensure
      (not (
        rec_len == 0
        || not (rec_len % 4 == 0)
        || ltb (length block) (offset + rec_len)
        || ltb rec_len (12 + name_len)))
      manifest
  name ← range block header_end (header_end + name_len)
  ensure (is_utf8 name) manifest
  file_type ← index block (offset + 11)
  ok (record { inode = from_le inode; rec_len = rec_len; name = name; file_type = file_type })

-- "." is one byte, ".." two.
abbrev pub dot : List ℕ
dot = b'.' ∷ []

abbrev pub dotdot : List ℕ
dotdot = b'.' ∷ b'.' ∷ []

-- The two entries are written through the mutable slices `block[..dot_len]` and `block[dot_len..]`.
unfoldable pub initial_directory_block : ℕ → ℕ → Result FsError (List ℕ)
initial_directory_block ino parent = do
  let block = replicate ub 0
  let dot_len = required_len 1
  dot_entry ← new ino dot file_type_dir dot_len
  first ← encode_into dot_entry (slice block 0 dot_len)
  let block = copy_at block 0 first
  dotdot_entry ← new parent dotdot file_type_dir (ub - dot_len)
  second ← encode_into dotdot_entry (slice block dot_len ub)
  ok (copy_at block dot_len second)
