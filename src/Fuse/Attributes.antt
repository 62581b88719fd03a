-- ===== src/Fuse/Attributes.antt =====
-- Error numbers, attributes, times and pages of fs/fuse.rs.
use album_fs.Common.{
  ℕ, zero, suc, ◌+◌, ◌-◌, ◌%◌, ◌^◌, min, bit_and, Bool, true, false, List, [], ◌∷◌, Option, none,
  some, ◌++◌, get_elem?, Result, ok, panic, ◌==◌, div_ceil, if◌then◌else◌,
}
use album_fs.Common.Int.{ℤ, pos_part}
use album_fs.Fs.{FsError, not_found, exists, not_empty, no_space, auth}
use album_fs.Inode.{Inode, is_dir}

-- The numbers of libc, by their names.
pub data Errno : Type 0 where
  enoent eexist enotempty enotdir eisdir enospc eacces eio einval : Errno

unfoldable pub errno_for : FsError → Errno
errno_for not_found = enoent
errno_for exists = eexist
errno_for not_empty = enotempty
errno_for FsError.not_dir = enotdir
errno_for FsError.is_dir = eisdir
errno_for no_space = enospc
errno_for auth = eacces
errno_for _ = eio

-- `std::time`: the epoch, the time some seconds after it where there is one, and the seconds since it where the
-- time is not before it.
pub record SystemTime : Type 1 where
  pub Time : Type 0
  pub epoch : Time
  pub after_epoch : ℕ → Option Time
  pub since_epoch : Time → Option ℕ

pub data TimeOrNow (Time : Type 0) : Type 0 where
  specific_time : Time → TimeOrNow Time
  now : TimeOrNow Time

pub data FileType : Type 0 where
  directory regular_file : FileType

module _ (times : SystemTime) where
  unfoldable pub timestamp : ℕ → times.Time
  timestamp seconds = elim (times.after_epoch seconds) [ none ↦ times.epoch | some t ↦ t ]

  unfoldable pub system_time_seconds : times.Time → ℕ
  system_time_seconds t = elim (times.since_epoch t) [ none ↦ 0 | some n ↦ n ]

  pub record FileAttr : Type 0 where
    pub ino : ℕ
    pub size : ℕ
    pub blocks : ℕ
    pub atime : times.Time
    pub mtime : times.Time
    pub ctime : times.Time
    pub crtime : times.Time
    pub kind : FileType
    pub perm : ℕ
    pub nlink : ℕ
    pub uid : ℕ
    pub gid : ℕ
    pub rdev : ℕ
    pub blksize : ℕ
    pub flags : ℕ

  unfoldable pub to_fileattr : ℕ → Inode → FileAttr
  to_fileattr ino inode = record {
    ino = ino;
    size = inode.size;
    blocks = div_ceil inode.size 512;
    atime = timestamp inode.atime;
    mtime = timestamp inode.mtime;
    ctime = timestamp inode.ctime;
    crtime = timestamp inode.ctime;
    kind = if is_dir inode then directory else regular_file;
    perm = bit_and inode.mode 0o7777 % 2 ^ 16;
    nlink = inode.nlink;
    uid = inode.uid;
    gid = inode.gid;
    rdev = 0;
    blksize = 4096;
    flags = 0;
  }

-- The numbers from `start` on, `n` of them, each with the offset after it.
unfoldable pub page_from : ℕ → ℕ → List (ℕ × ℕ)
page_from start zero = []
page_from start (suc n) = (start, start + 1) ∷ page_from (start + 1) n

unfoldable pub readdir_page : ℕ → ℤ → ℕ → List (ℕ × ℕ)
readdir_page entry_count offset max_entries =
    let start = pos_part offset in page_from start (min max_entries (entry_count - start))

-- An entry of a reply of `readdir`: its inode, the offset after it, its kind, its name.
pub record DirectoryItem : Type 0 where
  pub ino : ℕ
  pub offset : ℕ
  pub kind : FileType
  pub name : List ℕ

abbrev pub item_of : ℕ → List ℕ → ℕ → ℕ → DirectoryItem
item_of ino name file_type next_offset = record {
  ino = ino;
  offset = next_offset;
  kind = if file_type == 2 then directory else regular_file;
  name = name;
}

-- The loop of `readdir` over a page: `full` tells whether the reply has no room for one more item after those
-- that it has. An index past the entries panics.
unfoldable pub fill_reply :
    (List DirectoryItem → DirectoryItem → Bool)
    → List (ℕ × List ℕ × ℕ)
    → List DirectoryItem
    → List (ℕ × ℕ)
    → Result Errno (List DirectoryItem)
fill_reply full entries added [] = ok added
fill_reply full entries added ((index, next_offset) ∷ rest) = elim (get_elem? entries index) [
  | none ↦ panic
  | some (ino, name, file_type) ↦
      let item : DirectoryItem = item_of ino name file_type next_offset in
      elim (full added item) [
        | true ↦ ok added
        | false ↦ fill_reply full entries (added ++ item ∷ []) rest
      ]
]
