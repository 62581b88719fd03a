-- ===== src/Inode.antt =====
-- The on-disk inode of fs/inode.rs: 192 bytes, 21 to a block.
pub mod RoundTrip
mod Examples
use album_fs.Common.{
  ℕ, zero, suc, ◌+◌, ◌*◌, ◌/◌, ◌<◌, ◌≡◌, bit_and, Bool, List, [], ◌∷◌, length, All, ltb, ◌==◌,
  if◌then◌else◌, replicate, slice, Write, copy_all, to_le, from_le, IsU32, IsU64, Result, ok, err,
}
use album_fs.Fs.{FsError, manifest, ub}

abbrev pub inode_size : ℕ
inode_size = 192

abbrev pub inodes_per_block : ℕ
inodes_per_block = ub / inode_size

abbrev pub s_ifdir : ℕ
s_ifdir = 0o040000

abbrev pub s_ifreg : ℕ
s_ifreg = 0o100000

abbrev pub s_ifmt : ℕ
s_ifmt = 0o170000

-- `direct` is an array of twelve pointers.
pub record Inode : Type 0 where
  pub mode : ℕ
  pub uid : ℕ
  pub gid : ℕ
  pub nlink : ℕ
  pub size : ℕ
  pub atime : ℕ
  pub mtime : ℕ
  pub ctime : ℕ
  pub block_count : ℕ
  pub direct : List ℕ
  pub single_indirect : ℕ
  pub double_indirect : ℕ

-- The ranges that the field types give.
pub record IsValid (i : Inode) : Type 0 where
  pub mode : IsU32 i.mode
  pub uid : IsU32 i.uid
  pub gid : IsU32 i.gid
  pub nlink : IsU32 i.nlink
  pub size : IsU64 i.size
  pub atime : IsU64 i.atime
  pub mtime : IsU64 i.mtime
  pub ctime : IsU64 i.ctime
  pub block_count : IsU32 i.block_count
  pub twelve : length i.direct ≡ 12
  pub direct : All IsU64 i.direct
  pub single_indirect : IsU64 i.single_indirect
  pub double_indirect : IsU64 i.double_indirect

-- `Inode::default()`.
abbrev pub default : Inode
default = record {
  mode = 0;
  uid = 0;
  gid = 0;
  nlink = 0;
  size = 0;
  atime = 0;
  mtime = 0;
  ctime = 0;
  block_count = 0;
  direct = 0 ∷ 0 ∷ 0 ∷ 0 ∷ 0 ∷ 0 ∷ 0 ∷ 0 ∷ 0 ∷ 0 ∷ 0 ∷ 0 ∷ [];
  single_indirect = 0;
  double_indirect = 0;
}

abbrev head_writes : Inode → List Write
head_writes i =
    (0, to_le 4 i.mode)
    ∷ (4, to_le 4 i.uid)
    ∷ (8, to_le 4 i.gid)
    ∷ (12, to_le 4 i.nlink)
    ∷ (16, to_le 8 i.size)
    ∷ (24, to_le 8 i.atime)
    ∷ (32, to_le 8 i.mtime)
    ∷ (40, to_le 8 i.ctime)
    ∷ (48, to_le 4 i.block_count)
    ∷ []

-- The loop over `direct`.
abbrev pointer_writes : ℕ → List ℕ → List Write
pointer_writes index [] = []
pointer_writes index (pointer ∷ rest) =
    (56 + index * 8, to_le 8 pointer) ∷ pointer_writes (index + 1) rest

abbrev tail_writes : Inode → List Write
tail_writes i = (152, to_le 8 i.single_indirect) ∷ (160, to_le 8 i.double_indirect) ∷ []

unfoldable pub encode : Inode → List ℕ
encode i =
    copy_all
      (copy_all (copy_all (replicate inode_size 0) (head_writes i)) (pointer_writes 0 i.direct))
      (tail_writes i)

-- The pointers from `index` on, `n` of them.
unfoldable pub read_pointers : List ℕ → ℕ → ℕ → List ℕ
read_pointers bytes index zero = []
read_pointers bytes index (suc n) =
    let start = 56 + index * 8 in
    from_le (slice bytes start (start + 8)) ∷ read_pointers bytes (index + 1) n

unfoldable pub decode : List ℕ → Result FsError Inode
decode bytes =
    if ltb (length bytes) inode_size
    then err manifest
    else ok (record {
      mode = from_le (slice bytes 0 4);
      uid = from_le (slice bytes 4 8);
      gid = from_le (slice bytes 8 12);
      nlink = from_le (slice bytes 12 16);
      size = from_le (slice bytes 16 24);
      atime = from_le (slice bytes 24 32);
      mtime = from_le (slice bytes 32 40);
      ctime = from_le (slice bytes 40 48);
      block_count = from_le (slice bytes 48 52);
      direct = read_pointers bytes 0 12;
      single_indirect = from_le (slice bytes 152 160);
      double_indirect = from_le (slice bytes 160 168);
    })

unfoldable pub is_dir : Inode → Bool
is_dir i = bit_and i.mode s_ifmt == s_ifdir

unfoldable pub is_file : Inode → Bool
is_file i = bit_and i.mode s_ifmt == s_ifreg
