-- ===== src/Superblock/Examples.antt =====
-- A superblock of version 3 with one carrier, and the theorem about names at it.
use album_fs.Common.{
  ℕ, ◌≡◌, refl, true, List, [], ◌∷◌, ◌++◌, replicate, take, drop, slice, copy_at, from_le, get_or,
  bytes_eq, All, ok,
}
use album_fs.Block.Examples.{first_byte}
use album_fs.Superblock.{
  Superblock, sb_magic, has_byte, validate_name, read_name, read_ranges, decode,
}
use album_fs.Superblock.Names.{IsNamed, decode-IsNamed}

abbrev bytes : List ℕ
bytes =
    sb_magic
    ++ (3 ∷ 0 ∷ 0 ∷ 0 ∷ replicate 56 0)
    ++ (1 ∷ 0 ∷ 0 ∷ 0 ∷ 1 ∷ 0 ∷ 0 ∷ 0 ∷ 65 ∷ 0 ∷ 0 ∷ 0 ∷ [])
    ++ (1 ∷ 0 ∷ b'p' ∷ replicate 20 0)

abbrev superblock : Superblock
superblock = record {
  version = 3;
  block_size = 0;
  usable_size = 0;
  total_blocks = 0;
  inode_count = 0;
  bitmap_start = 0;
  inode_table_start = 0;
  data_start = 0;
  root_inode = 0;
  crypto_flags = 1;
  salt = replicate 16 0;
  mem_kib = 0;
  iters = 0;
  parallel = 0;
  carriers = record { name = b'p' ∷ []; chunk_index = 0; block_start = 0; block_count = 0 } ∷ [];
}

decode_run : decode (λ name. true) first_byte bytes ≡ ok superblock
unfolding decode read_ranges read_name validate_name has_byte replicate slice take drop copy_at
    from_le get_or bytes_eq
decode_run = refl

decode-IsNamed_example : All IsNamed superblock.carriers
decode-IsNamed_example = decode-IsNamed (λ name. true) first_byte bytes superblock decode_run refl
