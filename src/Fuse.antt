-- ===== src/Fuse.antt =====
-- The requests of fs/fuse.rs: each handler takes the mounted file system and gives the reply beside the file system
-- that it leaves. A panic in a handler poisons the lock, and a later request that takes it is answered with EIO.
--
-- The kernel, fuser and the system's time are outside: a request is its arguments, a reply its value.
pub mod Attributes
mod Pages
mod Poison
pub mod Requests
mod Examples
use album_fs.Common.{
  ℕ, ◌+◌, ◌-◌, ◌%◌, ◌^◌, bit_and, bit_or, [], Bool, true, false, List, Option, none, some, length,
  Result, ok, err, panic, map_err, ok_or, ensure, not, ◌==◌, if◌then◌else◌,
}
use album_fs.Common.Int.{ℤ, pos, is_negative, pos_part}
use album_fs.Common.Actions.{Action, ◌>>=◌, ◌>>◌, lift, reads}
use album_fs.Fs.{FsError}
use album_fs.Inode.{Inode, s_ifmt}
use album_fs.Device.{BlockDevice}
use album_fs.Album.{AlbumFs, getattr, write_inode, used_inodes}
use album_fs.Album.Sync.{total_blocks, free_blocks, inode_count, now, sync}
use album_fs.Fuse.Attributes.{
  Errno, enoent, einval, eio, errno_for, SystemTime, FileAttr, to_fileattr, FileType, TimeOrNow,
  specific_time, system_time_seconds, DirectoryItem, readdir_page, fill_reply,
}
use album_fs.Album.Files
use album_fs.Album.Dirs
use album_fs.Album.Names

-- The file system behind its lock.
pub record FuseAlbumFs (S : Type 0) : Type 0 where
  pub fs : AlbumFs S
  pub poisoned : Bool

-- What `reply.statfs` is given.
pub record Statfs : Type 0 where
  pub blocks : ℕ
  pub bfree : ℕ
  pub bavail : ℕ
  pub files : ℕ
  pub ffree : ℕ
  pub bsize : ℕ
  pub namelen : ℕ
  pub frsize : ℕ

-- The optional arguments of `setattr` that it uses.
pub record Changes (Time : Type 0) : Type 0 where
  pub mode : Option ℕ
  pub uid : Option ℕ
  pub gid : Option ℕ
  pub size : Option ℕ
  pub atime : Option (TimeOrNow Time)
  pub mtime : Option (TimeOrNow Time)
  pub ctime : Option Time

abbrev pub given : {A : Type 0} → Option A → A → A
given o a = elim o [ none ↦ a | some b ↦ b ]

abbrev pub is_panic : {E A : Type 0} → Result E A → Bool
is_panic r = elim r [ ok a ↦ false | err e ↦ false | panic ↦ true ]

module _ {S : Type 0} where
  -- A call of the file system with its error as a number.
  abbrev pub numbered : {A : Type 0} → Action FsError (AlbumFs S) A → Action Errno (AlbumFs S) A
  numbered act fs = let (r, fs') = act fs in (map_err errno_for r, fs')

  unfoldable pub lock : {A : Type 0} → Action Errno (AlbumFs S) A → Action Errno (FuseAlbumFs S) A
  lock act m =
      let (r, fs) = act m.fs in
      if m.poisoned then (err eio, m) else (r, record { fs = fs; poisoned = is_panic r })

module _ {S : Type 0} (d : BlockDevice S) (is_utf8 : List ℕ → Bool) (clock : ℕ → ℕ)
    (times : SystemTime) where
  -- `name.to_str()`.
  abbrev pub text : List ℕ → Result Errno (List ℕ)
  text name = if is_utf8 name then ok name else err einval

  -- `sync_reply`, of flush, release, releasedir, fsync and fsyncdir.
  unfoldable pub sync_reply : Action Errno (FuseAlbumFs S) (Unit {0})
  sync_reply = lock (λ fs. let (r, fs') = sync d fs in (map_err (λ _. eio) r, fs'))

  -- `destroy` ignores the result.
  unfoldable pub destroy : FuseAlbumFs S → FuseAlbumFs S
  destroy m = (lock (numbered (sync d)) m).1

  unfoldable pub lookup : ℕ → List ℕ → Action Errno (FuseAlbumFs S) (FileAttr times)
  lookup parent bytes = do
    name ← lift (text bytes)
    lock (do
      found ← numbered (Dirs.lookup d is_utf8 parent name)
      ino ← lift (ok_or found enoent)
      inode ← numbered (getattr d ino)
      lift (ok (to_fileattr times ino inode)))

  unfoldable pub get_attributes : ℕ → Action Errno (FuseAlbumFs S) (FileAttr times)
  get_attributes ino =
      lock (do inode ← numbered (getattr d ino); lift (ok (to_fileattr times ino inode)))

  -- `time_or_now_seconds` of a time that is given, the old seconds otherwise.
  unfoldable pub seconds_or : ℕ → Option (TimeOrNow times.Time) → Action FsError (AlbumFs S) ℕ
  seconds_or old none = lift (ok old)
  seconds_or old (some (specific_time t)) = lift (ok (system_time_seconds times t))
  seconds_or old (some TimeOrNow.now) = now clock

  abbrev pub truncate_if : ℕ → Option ℕ → Action FsError (AlbumFs S) (Unit {0})
  truncate_if ino size = elim size [
    | none ↦ lift (ok tt)
    | some new_size ↦ Files.truncate d clock ino new_size
  ]

  abbrev pub changed : Changes times.Time → ℕ → ℕ → Inode → Inode
  changed changes atime mtime before = record before {
    mode = elim changes.mode [
      | none ↦ before.mode
      | some m ↦ bit_or (bit_and before.mode s_ifmt) (bit_and m 0o7777)
    ];
    uid = given changes.uid before.uid;
    gid = given changes.gid before.gid;
    atime = atime;
    mtime = mtime;
    ctime = elim changes.ctime [ none ↦ before.ctime | some t ↦ system_time_seconds times t ];
  }

  unfoldable pub setattr : ℕ → Changes times.Time → Action Errno (FuseAlbumFs S) (FileAttr times)
  setattr ino changes = lock (do
    numbered (truncate_if ino changes.size)
    before ← numbered (getattr d ino)
    atime ← numbered (seconds_or before.atime changes.atime)
    mtime ← numbered (seconds_or before.mtime changes.mtime)
    let inode = changed changes atime mtime before
    numbered (write_inode d ino inode)
    numbered (sync d)
    lift (ok (to_fileattr times ino inode)))

  unfoldable pub read : ℕ → ℤ → ℕ → Action Errno (FuseAlbumFs S) (List ℕ)
  read ino offset size = do
    lift (ensure (not (is_negative offset)) einval)
    lock (numbered (Files.read d ino (pos_part offset) size))

  -- The number of bytes written, as 32 bits.
  unfoldable pub write : ℕ → ℤ → List ℕ → Action Errno (FuseAlbumFs S) ℕ
  write ino offset bytes = do
    lift (ensure (not (is_negative offset)) einval)
    lock (do
      written ← numbered (Files.write d clock ino (pos_part offset) bytes)
      lift (ok (written % 2 ^ 32)))

  -- `mode & !umask`.
  abbrev pub unmasked : ℕ → ℕ → ℕ
  unmasked mode umask = bit_and mode (2 ^ 32 - 1 - umask)

  -- The new inode gets the caller's user and group.
  unfoldable pub give_owner : ℕ → ℕ → ℕ → Action Errno (AlbumFs S) (FileAttr times)
  give_owner uid gid ino = do
    before ← numbered (getattr d ino)
    let inode = record before { uid = uid; gid = gid }
    numbered (write_inode d ino inode)
    numbered (sync d)
    lift (ok (to_fileattr times ino inode))

  unfoldable pub create : ℕ → ℕ → ℕ → List ℕ → ℕ → ℕ → Action Errno (FuseAlbumFs S) (FileAttr times)
  create uid gid parent bytes mode umask = do
    name ← lift (text bytes)
    lock (do
      ino ← numbered (Names.create d is_utf8 clock parent name (unmasked mode umask))
      give_owner uid gid ino)

  unfoldable pub mkdir : ℕ → ℕ → ℕ → List ℕ → ℕ → ℕ → Action Errno (FuseAlbumFs S) (FileAttr times)
  mkdir uid gid parent bytes mode umask = do
    name ← lift (text bytes)
    lock (do
      ino ← numbered (Names.mkdir d is_utf8 clock parent name (unmasked mode umask))
      give_owner uid gid ino)

  unfoldable pub unlink : ℕ → List ℕ → Action Errno (FuseAlbumFs S) (Unit {0})
  unlink parent bytes = do
    name ← lift (text bytes)
    lock (numbered (Names.unlink d is_utf8 clock parent name))

  unfoldable pub rmdir : ℕ → List ℕ → Action Errno (FuseAlbumFs S) (Unit {0})
  rmdir parent bytes = do
    name ← lift (text bytes)
    lock (numbered (Names.rmdir d is_utf8 clock parent name))

  unfoldable pub rename : ℕ → List ℕ → ℕ → List ℕ → ℕ → Action Errno (FuseAlbumFs S) (Unit {0})
  rename parent bytes newparent newbytes flags = do
    lift (ensure (flags == 0) einval)
    name ← lift (text bytes)
    newname ← lift (text newbytes)
    lock (numbered (Names.rename d is_utf8 clock parent name newparent newname))

  unfoldable pub readdir :
      (List DirectoryItem → DirectoryItem → Bool)
      → ℕ
      → ℤ
      → Action Errno (FuseAlbumFs S) (List DirectoryItem)
  readdir full ino offset = do
    entries ← lock (numbered (Dirs.readdir d is_utf8 ino))
    lift (fill_reply full entries [] (readdir_page (length entries) offset (length entries)))

  unfoldable pub statfs : Action Errno (FuseAlbumFs S) Statfs
  statfs = lock (do
    used ← numbered (used_inodes d)
    reads (λ fs. ok (record {
      blocks = total_blocks fs;
      bfree = free_blocks fs;
      bavail = free_blocks fs;
      files = inode_count fs;
      ffree = (inode_count fs + 2 ^ 64 - used) % 2 ^ 64;
      bsize = 4096;
      namelen = 255;
      frsize = 4096;
    })))
