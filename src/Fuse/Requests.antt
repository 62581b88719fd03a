-- ===== src/Fuse/Requests.antt =====
-- Sequences of requests of the kernel, in any order, that are answered or fail.
use album_fs.Common.{ℕ, Bool, List}
use album_fs.Common.Int.{ℤ}
use album_fs.Device.{BlockDevice}
use album_fs.Fuse.Attributes.{SystemTime, DirectoryItem}
use album_fs.Fuse.{
  FuseAlbumFs, Changes, sync_reply, destroy, lookup, get_attributes, setattr, read, write, create,
  mkdir, unlink, rmdir, rename, readdir, statfs,
}

module _ {S : Type 0} (d : BlockDevice S) (is_utf8 : List ℕ → Bool) (clock : ℕ → ℕ)
    (times : SystemTime) where
  -- Any sequence of requests with any arguments, each with the file system that it leaves.
  pub data Requests (m : FuseAlbumFs S) : FuseAlbumFs S → Type 0 where
    mounted : Requests m m
    unmount : {m' : FuseAlbumFs S} → Requests m m' → Requests m (destroy d is_utf8 clock times m')
    sync_all :
        {m' : FuseAlbumFs S} → Requests m m' → Requests m (sync_reply d is_utf8 clock times m').1
    look_up :
        {m' : FuseAlbumFs S}
        → Requests m m'
        → (parent : ℕ) (bytes : List ℕ)
        → Requests m (lookup d is_utf8 clock times parent bytes m').1
    stat :
        {m' : FuseAlbumFs S}
        → Requests m m'
        → (ino : ℕ) → Requests m (get_attributes d is_utf8 clock times ino m').1
    set_attributes :
        {m' : FuseAlbumFs S}
        → Requests m m'
        → (ino : ℕ) (changes : Changes times.Time)
        → Requests m (setattr d is_utf8 clock times ino changes m').1
    read_file :
        {m' : FuseAlbumFs S}
        → Requests m m'
        → (ino : ℕ) (offset : ℤ) (size : ℕ)
        → Requests m (read d is_utf8 clock times ino offset size m').1
    write_file :
        {m' : FuseAlbumFs S}
        → Requests m m'
        → (ino : ℕ) (offset : ℤ) (bytes : List ℕ)
        → Requests m (write d is_utf8 clock times ino offset bytes m').1
    create_file :
        {m' : FuseAlbumFs S}
        → Requests m m'
        → (uid gid parent : ℕ) (bytes : List ℕ) (mode umask : ℕ)
        → Requests m (create d is_utf8 clock times uid gid parent bytes mode umask m').1
    make_directory :
        {m' : FuseAlbumFs S}
        → Requests m m'
        → (uid gid parent : ℕ) (bytes : List ℕ) (mode umask : ℕ)
        → Requests m (mkdir d is_utf8 clock times uid gid parent bytes mode umask m').1
    remove_file :
        {m' : FuseAlbumFs S}
        → Requests m m'
        → (parent : ℕ) (bytes : List ℕ)
        → Requests m (unlink d is_utf8 clock times parent bytes m').1
    remove_directory :
        {m' : FuseAlbumFs S}
        → Requests m m'
        → (parent : ℕ) (bytes : List ℕ) → Requests m (rmdir d is_utf8 clock times parent bytes m').1
    rename_entry :
        {m' : FuseAlbumFs S}
        → Requests m m'
        → (parent : ℕ) (bytes : List ℕ) (newparent : ℕ) (newbytes : List ℕ) (flags : ℕ)
        → Requests m (rename d is_utf8 clock times parent bytes newparent newbytes flags m').1
    list_entries :
        {m' : FuseAlbumFs S}
        → Requests m m'
        → (full : List DirectoryItem → DirectoryItem → Bool) (ino : ℕ) (offset : ℤ)
        → Requests m (readdir d is_utf8 clock times full ino offset m').1
    count : {m' : FuseAlbumFs S} → Requests m m' → Requests m (statfs d is_utf8 clock times m').1
