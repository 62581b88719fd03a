-- ===== src/Fuse/Poison.antt =====
-- Requests behind a lock that a panic has poisoned.
use album_fs.Common.{panic, false, ℕ, ◌≡◌, refl, ap, ◌∙◌, ◌==◌, Bool, true, not, List, ensure, err}
use album_fs.Common.Int.{ℤ, is_negative}
use album_fs.Common.Actions.{Action}
use album_fs.Common.Keeps.{Keeps, Keeps-lift, ◌▷◌, ◌▸◌}
use album_fs.Device.{BlockDevice}
use album_fs.Album.{AlbumFs}
use album_fs.Fuse.Attributes.{Errno, eio, einval, SystemTime, DirectoryItem}
use album_fs.Fuse.{
  FuseAlbumFs, Changes, lock, text, destroy, sync_reply, lookup, get_attributes, setattr, read,
  write, create, mkdir, unlink, rmdir, rename, readdir, statfs,
}
use album_fs.Fuse.Requests.{
  Requests, mounted, unmount, sync_all, look_up, stat, set_attributes, read_file, write_file,
  create_file, make_directory, remove_file, remove_directory, rename_entry, list_entries, count,
}

module _ {S : Type 0} where
  refused :
      {A : Type 0} (act : Action Errno (AlbumFs S) A) (m : FuseAlbumFs S)
      → m.poisoned ≡ true
      → lock act m ≡ (err eio, m)
  unfolding lock
  refused act m e = rw e refl

  Keeps-refused :
      {A : Type 0} {m : FuseAlbumFs S}
      → m.poisoned ≡ true
      → (act : Action Errno (AlbumFs S) A) → Keeps (λ m'. m' ≡ m) (lock act)
  Keeps-refused e act = record {
    keeps = λ m' same.
        ap (λ r. r.1) (refused act m' (ap (λ (x : FuseAlbumFs S). x.poisoned) same ∙ e)) ∙ same;
  }

module _ {S : Type 0} (d : BlockDevice S) (is_utf8 : List ℕ → Bool) (clock : ℕ → ℕ)
    (times : SystemTime) where
  sync_reply-refused :
      {m : FuseAlbumFs S}
      → m.poisoned ≡ true
      → Keeps (λ m'. m' ≡ m) (sync_reply d is_utf8 clock times)
  unfolding sync_reply
  sync_reply-refused e = Keeps-refused e _

  lookup-refused :
      {m : FuseAlbumFs S}
      → m.poisoned ≡ true
      → (parent : ℕ) (bytes : List ℕ)
      → Keeps (λ m'. m' ≡ m) (lookup d is_utf8 clock times parent bytes)
  unfolding lookup
  lookup-refused e parent bytes =
      Keeps-lift (text d is_utf8 clock times bytes) ▷ λ name. Keeps-refused e _

  get_attributes-refused :
      {m : FuseAlbumFs S}
      → m.poisoned ≡ true
      → (ino : ℕ) → Keeps (λ m'. m' ≡ m) (get_attributes d is_utf8 clock times ino)
  unfolding get_attributes
  get_attributes-refused e ino = Keeps-refused e _

  setattr-refused :
      {m : FuseAlbumFs S}
      → m.poisoned ≡ true
      → (ino : ℕ) (changes : Changes times.Time)
      → Keeps (λ m'. m' ≡ m) (setattr d is_utf8 clock times ino changes)
  unfolding setattr
  setattr-refused e ino changes = Keeps-refused e _

  read-refused :
      {m : FuseAlbumFs S}
      → m.poisoned ≡ true
      → (ino : ℕ) (offset : ℤ) (size : ℕ)
      → Keeps (λ m'. m' ≡ m) (read d is_utf8 clock times ino offset size)
  unfolding read
  read-refused e ino offset size =
      Keeps-lift (ensure (not (is_negative offset)) einval) ▸ Keeps-refused e _

  write-refused :
      {m : FuseAlbumFs S}
      → m.poisoned ≡ true
      → (ino : ℕ) (offset : ℤ) (bytes : List ℕ)
      → Keeps (λ m'. m' ≡ m) (write d is_utf8 clock times ino offset bytes)
  unfolding write
  write-refused e ino offset bytes =
      Keeps-lift (ensure (not (is_negative offset)) einval) ▸ Keeps-refused e _

  create-refused :
      {m : FuseAlbumFs S}
      → m.poisoned ≡ true
      → (uid : ℕ) (gid : ℕ) (parent : ℕ) (bytes : List ℕ) (mode : ℕ) (umask : ℕ)
      → Keeps (λ m'. m' ≡ m) (create d is_utf8 clock times uid gid parent bytes mode umask)
  unfolding create
  create-refused e uid gid parent bytes mode umask =
      Keeps-lift (text d is_utf8 clock times bytes) ▷ λ name. Keeps-refused e _

  mkdir-refused :
      {m : FuseAlbumFs S}
      → m.poisoned ≡ true
      → (uid : ℕ) (gid : ℕ) (parent : ℕ) (bytes : List ℕ) (mode : ℕ) (umask : ℕ)
      → Keeps (λ m'. m' ≡ m) (mkdir d is_utf8 clock times uid gid parent bytes mode umask)
  unfolding mkdir
  mkdir-refused e uid gid parent bytes mode umask =
      Keeps-lift (text d is_utf8 clock times bytes) ▷ λ name. Keeps-refused e _

  unlink-refused :
      {m : FuseAlbumFs S}
      → m.poisoned ≡ true
      → (parent : ℕ) (bytes : List ℕ)
      → Keeps (λ m'. m' ≡ m) (unlink d is_utf8 clock times parent bytes)
  unfolding unlink
  unlink-refused e parent bytes =
      Keeps-lift (text d is_utf8 clock times bytes) ▷ λ name. Keeps-refused e _

  rmdir-refused :
      {m : FuseAlbumFs S}
      → m.poisoned ≡ true
      → (parent : ℕ) (bytes : List ℕ)
      → Keeps (λ m'. m' ≡ m) (rmdir d is_utf8 clock times parent bytes)
  unfolding rmdir
  rmdir-refused e parent bytes =
      Keeps-lift (text d is_utf8 clock times bytes) ▷ λ name. Keeps-refused e _

  rename-refused :
      {m : FuseAlbumFs S}
      → m.poisoned ≡ true
      → (parent : ℕ) (bytes : List ℕ) (newparent : ℕ) (newbytes : List ℕ) (flags : ℕ)
      → Keeps (λ m'. m' ≡ m) (rename d is_utf8 clock times parent bytes newparent newbytes flags)
  unfolding rename
  rename-refused e parent bytes newparent newbytes flags =
      Keeps-lift (ensure (flags == 0) einval)
      ▸ (Keeps-lift (text d is_utf8 clock times bytes) ▷ λ name.
          Keeps-lift (text d is_utf8 clock times newbytes) ▷ λ newname. Keeps-refused e _)

  readdir-refused :
      {m : FuseAlbumFs S}
      → m.poisoned ≡ true
      → (full : List DirectoryItem → DirectoryItem → Bool) (ino : ℕ) (offset : ℤ)
      → Keeps (λ m'. m' ≡ m) (readdir d is_utf8 clock times full ino offset)
  unfolding readdir
  readdir-refused e full ino offset = Keeps-refused e _ ▷ λ entries. Keeps-lift _

  statfs-refused :
      {m : FuseAlbumFs S} → m.poisoned ≡ true → Keeps (λ m'. m' ≡ m) (statfs d is_utf8 clock times)
  unfolding statfs
  statfs-refused e = Keeps-refused e _

  -- Behind a poisoned lock no request changes the file system or the lock.
  Requests_poisoned :
      {m m' : FuseAlbumFs S} → m.poisoned ≡ true → Requests d is_utf8 clock times m m' → m' ≡ m
  unfolding destroy
  Requests_poisoned e mounted = refl
  Requests_poisoned e (unmount {m' = s} c) = (Keeps-refused e _).keeps s (Requests_poisoned e c)
  Requests_poisoned e (sync_all {m' = s} c) = (sync_reply-refused e).keeps s (Requests_poisoned e c)
  Requests_poisoned e (look_up {m' = s} c parent bytes) =
      (lookup-refused e parent bytes).keeps s (Requests_poisoned e c)
  Requests_poisoned e (stat {m' = s} c ino) =
      (get_attributes-refused e ino).keeps s (Requests_poisoned e c)
  Requests_poisoned e (set_attributes {m' = s} c ino changes) =
      (setattr-refused e ino changes).keeps s (Requests_poisoned e c)
  Requests_poisoned e (read_file {m' = s} c ino offset size) =
      (read-refused e ino offset size).keeps s (Requests_poisoned e c)
  Requests_poisoned e (write_file {m' = s} c ino offset bytes) =
      (write-refused e ino offset bytes).keeps s (Requests_poisoned e c)
  Requests_poisoned e (create_file {m' = s} c uid gid parent bytes mode umask) =
      (create-refused e uid gid parent bytes mode umask).keeps s (Requests_poisoned e c)
  Requests_poisoned e (make_directory {m' = s} c uid gid parent bytes mode umask) =
      (mkdir-refused e uid gid parent bytes mode umask).keeps s (Requests_poisoned e c)
  Requests_poisoned e (remove_file {m' = s} c parent bytes) =
      (unlink-refused e parent bytes).keeps s (Requests_poisoned e c)
  Requests_poisoned e (remove_directory {m' = s} c parent bytes) =
      (rmdir-refused e parent bytes).keeps s (Requests_poisoned e c)
  Requests_poisoned e (rename_entry {m' = s} c parent bytes newparent newbytes flags) =
      (rename-refused e parent bytes newparent newbytes flags).keeps s (Requests_poisoned e c)
  Requests_poisoned e (list_entries {m' = s} c full ino offset) =
      (readdir-refused e full ino offset).keeps s (Requests_poisoned e c)
  Requests_poisoned e (count {m' = s} c) = (statfs-refused e).keeps s (Requests_poisoned e c)

  -- Where what runs under the lock panics, no later requests change the file system that the panic left, and
  -- whatever is then tried under the lock is answered with EIO.
  pub panic-Poisons :
      {A B : Type 0} (act : Action Errno (AlbumFs S) A) (m m' : FuseAlbumFs S)
      (next : Action Errno (AlbumFs S) B)
      → m.poisoned ≡ false
      → (act m.fs).0 ≡ panic
      → Requests d is_utf8 clock times (lock act m).1 m'
      → (m'.fs ≡ (act m.fs).1) × ((lock next m').0 ≡ err eio)
  panic-Poisons act m m' next free e c =
      let poisoned : (lock act m).1.poisoned ≡ true = unfold lock in rw (free, e) in
      let same = Requests_poisoned poisoned c in
      let left : (lock act m).1.fs ≡ (act m.fs).1 = unfold lock in rw free in
      (
        ap (λ (x : FuseAlbumFs S). x.fs) same ∙ left,
        ap (λ r. r.0) (refused next m' (ap (λ (x : FuseAlbumFs S). x.poisoned) same ∙ poisoned)),
      )
