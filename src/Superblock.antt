-- ===== src/Superblock.antt =====
-- The superblock of fs/superblock.rs: its fields, its bytes in the three versions, and the manifest of
-- the carriers. A name is the list of its UTF-8 bytes.
pub mod Names
mod Examples
use album_fs.Common.{
  ℕ, zero, suc, ◌+◌, ◌*◌, ◌%◌, ◌^◌, bit_and, Bool, true, false, not, ◌&&◌, ◌||◌, List, [], ◌∷◌,
  ◌++◌, length, replicate, slice, copy_at, Write, copy_all, to_le, from_le, ltb, leb, ◌==◌,
  bytes_eq, if◌then◌else◌, Result, ok, err, ensure, ◌>>=◌, ◌>>◌,
}
use album_fs.Fs.{FsError, manifest, bad_magic, superblock_crc, pb, ub}
use album_fs.Block.{Checksum}
use album_fs.Dirent.{dot, dotdot}

abbrev pub crypto_flag_encrypted : ℕ
crypto_flag_encrypted = 1

abbrev pub markerless_fs_version : ℕ
markerless_fs_version = 3

abbrev pub fs_version : ℕ
fs_version = 2

-- "ALBUMFS\0".
abbrev pub sb_magic : List ℕ
sb_magic = b'A' ∷ b'L' ∷ b'B' ∷ b'U' ∷ b'M' ∷ b'F' ∷ b'S' ∷ 0 ∷ []

abbrev pub argon2_mem_kib : ℕ
argon2_mem_kib = 65536

abbrev pub argon2_iters : ℕ
argon2_iters = 3

abbrev pub argon2_parallel : ℕ
argon2_parallel = 1

pub record CarrierRange : Type 0 where
  pub name : List ℕ
  pub chunk_index : ℕ
  pub block_start : ℕ
  pub block_count : ℕ

-- `salt` is an array of 16 bytes.
pub record Superblock : Type 0 where
  pub version : ℕ
  pub block_size : ℕ
  pub usable_size : ℕ
  pub total_blocks : ℕ
  pub inode_count : ℕ
  pub bitmap_start : ℕ
  pub inode_table_start : ℕ
  pub data_start : ℕ
  pub root_inode : ℕ
  pub crypto_flags : ℕ
  pub salt : List ℕ
  pub mem_kib : ℕ
  pub iters : ℕ
  pub parallel : ℕ
  pub carriers : List CarrierRange

abbrev pub header_len : ℕ → ℕ
header_len version = if version == 2 then 108 else 80

abbrev pub manifest_len : ℕ → List CarrierRange → ℕ
manifest_len version [] = 0
manifest_len version (carrier ∷ rest) =
    (if leb markerless_fs_version version then 2 + length carrier.name + 20 else 20)
    + manifest_len version rest

abbrev pub header_fields : Superblock → List Write
header_fields sb =
    (0, sb_magic)
    ∷ (8, to_le 4 sb.version)
    ∷ (12, to_le 4 sb.block_size)
    ∷ (16, to_le 4 sb.usable_size)
    ∷ (20, to_le 8 sb.total_blocks)
    ∷ (28, to_le 8 sb.inode_count)
    ∷ (36, to_le 8 sb.bitmap_start)
    ∷ (44, to_le 8 sb.inode_table_start)
    ∷ (52, to_le 8 sb.data_start)
    ∷ (60, to_le 8 sb.root_inode)
    ∷ (68, to_le 4 (length sb.carriers % 2 ^ 32))
    ∷ (72, to_le 4 sb.crypto_flags)
    ∷ []

abbrev pub key_fields : Superblock → List Write
key_fields sb =
    if sb.version == 2
    then (80, sb.salt)
      ∷ (96, to_le 4 sb.mem_kib)
      ∷ (100, to_le 4 sb.iters)
      ∷ (104, to_le 4 sb.parallel)
      ∷ []
    else []

-- The loop over the manifest, from `offset` on.
abbrev pub carrier_writes : ℕ → ℕ → List CarrierRange → List Write
carrier_writes version offset [] = []
carrier_writes version offset (carrier ∷ rest) =
    let named = leb markerless_fs_version version in
    let start = if named then offset + 2 + length carrier.name else offset in
    (if named
      then (offset, to_le 2 (length carrier.name % 2 ^ 16)) ∷ (offset + 2, carrier.name) ∷ []
      else [])
    ++ ((start, to_le 4 carrier.chunk_index)
        ∷ (start + 4, to_le 8 carrier.block_start)
        ∷ (start + 12, to_le 8 carrier.block_count)
        ∷ carrier_writes version (start + 20) rest)

unfoldable pub encode : Checksum → Superblock → List ℕ
encode c sb =
    let size = header_len sb.version + manifest_len sb.version sb.carriers in
    let header = copy_all (copy_all (replicate size 0) (header_fields sb)) (key_fields sb) in
    let bytes = copy_all header (carrier_writes sb.version (header_len sb.version) sb.carriers) in
    copy_at bytes 76 (to_le 4 (c.crc32 bytes))

-- Whether a name has a byte.
unfoldable pub has_byte : ℕ → List ℕ → Bool
has_byte b [] = false
has_byte b (x ∷ xs) = x == b || has_byte b xs

unfoldable pub validate_name : List ℕ → Result FsError (Unit {0})
validate_name name =
    if length name == 0
      || (bytes_eq name dot
          || (bytes_eq name dotdot
              || (has_byte b'/' name || (has_byte b'\\' name || ltb 65535 (length name)))))
    then err manifest
    else ok tt

module _ (is_utf8 : List ℕ → Bool) where
  -- The name of an entry of the manifest, and where it ends. The offsets stay far below 2 ^ 64.
  unfoldable pub read_name : ℕ → List ℕ → ℕ → Result FsError (List ℕ × ℕ)
  read_name version buf offset =
      let start = offset + 2 in
      let end = start + from_le (slice buf offset start) in
      let name = slice buf start end in
      if not (leb markerless_fs_version version)
      then ok ([], offset)
      else if ltb (length buf) start
      then err manifest
      else if ltb (length buf) end
      then err manifest
      else if not (is_utf8 name)
      then err manifest
      else (validate_name name >>= λ _. ok (name, end))

  -- The loop of `decode` over the entries that are left, with the offset after the last.
  unfoldable pub read_ranges : ℕ → List ℕ → ℕ → ℕ → Result FsError (List CarrierRange × ℕ)
  read_ranges version buf zero offset = ok ([], offset)
  read_ranges version buf (suc n) offset = read_name version buf offset >>= λ (name, start).
      ensure (leb (start + 20) (length buf)) manifest >>= λ _.
      read_ranges version buf n (start + 20) >>= λ (rest, end). ok (
        record {
          name = name;
          chunk_index = from_le (slice buf start (start + 4));
          block_start = from_le (slice buf (start + 4) (start + 12));
          block_count = from_le (slice buf (start + 12) (start + 20));
        }
            ∷ rest,
        end,
      )

  unfoldable pub decode : Checksum → List ℕ → Result FsError Superblock
  decode c buf =
      let version = from_le (slice buf 8 12) in
      let keyed = version == 2 in
      if ltb (length buf) 80 || not (bytes_eq (slice buf 0 8) sb_magic)
      then err bad_magic
      else if not (version == 1 || (version == 2 || version == markerless_fs_version))
      then err manifest
      else if ltb (length buf) (header_len version)
      then err manifest
      else (read_ranges version buf (from_le (slice buf 68 72)) (header_len version)
          >>= λ (ranges, end).
              if not (
                c.crc32 (copy_at (slice buf 0 end) 76 (replicate 4 0)) == from_le (slice buf 76 80))
              then err superblock_crc
              else ok (record {
                version = version;
                block_size = from_le (slice buf 12 16);
                usable_size = from_le (slice buf 16 20);
                total_blocks = from_le (slice buf 20 28);
                inode_count = from_le (slice buf 28 36);
                bitmap_start = from_le (slice buf 36 44);
                inode_table_start = from_le (slice buf 44 52);
                data_start = from_le (slice buf 52 60);
                root_inode = from_le (slice buf 60 68);
                crypto_flags = from_le (slice buf 72 76);
                salt = if keyed then slice buf 80 96 else replicate 16 0;
                mem_kib = if keyed then from_le (slice buf 96 100) else 0;
                iters = if keyed then from_le (slice buf 100 104) else 0;
                parallel = if keyed then from_le (slice buf 104 108) else 0;
                carriers = ranges;
              }))

unfoldable pub standard : ℕ → ℕ → ℕ → ℕ → ℕ → List CarrierRange → Bool → Superblock
standard total inodes bitmap_start table_start data_start ranges encrypted = record {
  version = fs_version;
  block_size = pb;
  usable_size = ub;
  total_blocks = total;
  inode_count = inodes;
  bitmap_start = bitmap_start;
  inode_table_start = table_start;
  data_start = data_start;
  root_inode = 1;
  crypto_flags = if encrypted then crypto_flag_encrypted else 0;
  salt = replicate 16 0;
  mem_kib = argon2_mem_kib;
  iters = argon2_iters;
  parallel = argon2_parallel;
  carriers = ranges;
}

unfoldable pub markerless : ℕ → ℕ → ℕ → ℕ → ℕ → List CarrierRange → Superblock
markerless total inodes bitmap_start table_start data_start ranges =
    record (standard total inodes bitmap_start table_start data_start ranges true) {
      version = markerless_fs_version;
      mem_kib = 0;
      iters = 0;
      parallel = 0;
    }

unfoldable pub encrypted : Superblock → Bool
encrypted sb = not (bit_and sb.crypto_flags crypto_flag_encrypted == 0)

unfoldable pub markerless_encrypted : Superblock → Bool
markerless_encrypted sb = sb.version == markerless_fs_version && encrypted sb
