-- ===== src/Fs.antt =====
-- The constants and the error type of src/fs/mod.rs, and the codec's errors of src/stego/mod.rs.
pub mod Slices
use album_fs.Common.{
  ℕ, ◌-◌, ◌+◌, List, length, slice, get_or, copy_at, ltb, leb, if◌then◌else◌, Result, ok, panic,
}

-- Size in bytes of a physical block, of its header, and of the payload that is left.
abbrev pub pb : ℕ
pb = 4096

abbrev pub block_header : ℕ
block_header = 64

abbrev pub ub : ℕ
ub = pb - block_header

-- An error of the image library or of the operating system is one value here.
pub data CodecError : Type 0 where
  image io : CodecError
  payload_too_large : ℕ → ℕ → CodecError
  not_a_carrier header_crc jpeg invalid_mode : CodecError

-- `manifest` carries a message in the source, which no code reads.
pub data FsError : Type 0 where
  codec : CodecError → FsError
  io : FsError
  block_crc : ℕ → FsError
  auth anchor_required superblock_crc bad_magic no_primary manifest : FsError
  bad_block : ℕ → FsError
  no_space empty_pool already_formatted not_found exists not_empty not_dir is_dir : FsError

-- Slices of bytes, that panic past the end: a range that is read, an index, and `copy_from_slice` into the range
-- from `at` on.
unfoldable pub range : List ℕ → ℕ → ℕ → Result FsError (List ℕ)
range xs lo hi = if ltb (length xs) hi then panic else ok (slice xs lo hi)

unfoldable pub index : List ℕ → ℕ → Result FsError ℕ
index xs i = if leb (length xs) i then panic else ok (get_or xs i 0)

unfoldable pub copy_into : List ℕ → ℕ → List ℕ → Result FsError (List ℕ)
copy_into xs at ys = if ltb (length xs) (at + length ys) then panic else ok (copy_at xs at ys)
