-- ===== src/Album/Refusals.antt =====
-- A name that is taken is not given again, and one that is missing is not removed.
use album_fs.Common.{ℕ, ◌≡◌, ap, Bool, List, Option, none, some, Result, ok, err, panic}
use mathlib.Core.Path.{subst, sym}
use album_fs.Common.Actions.{Action, continue}
use album_fs.Fs.{FsError, exists, not_found}
use album_fs.Device.{BlockDevice}
use album_fs.Album.{AlbumFs}
use album_fs.Album.Dirs.{lookup}
use album_fs.Album.Names.{create, mkdir, unlink, rmdir}
use album_fs.Album.Safety.{Same}
use album_fs.Album.Calls.{Query-Same, look_up}

ok-injective : {E A : Type 0} {a b : A} → ◌≡◌ {A = Result E A} (ok a) (ok b) → a ≡ b
ok-injective e = cc

module _ {E S A B : Type 0} where
  -- What follows a call that succeeds.
  continue-ok :
      (next : A → Action E S B) (p : Result E A × S) (a : A)
      → p.0 ≡ ok a
      → continue next p ≡ next a p.1
  continue-ok next (ok b, s) a e = ap (λ x. next x s) (ok-injective e)
  continue-ok next (err b, s) a e = cc
  continue-ok next (panic, s) a e = cc

module _ {S : Type 0} (d : BlockDevice S) (is_utf8 : List ℕ → Bool) (clock : ℕ → ℕ)
    (fs : AlbumFs S) where
  -- The call fails with the error and leaves all that the file system holds.
  abbrev pub Fails : {A : Type 0} → FsError → Result FsError A × AlbumFs S → Type 0
  Fails e p = (p.0 ≡ err e) × Same d fs p.1

  -- What `lookup` found decides which calls are refused.
  abbrev pub Refuses : ℕ → List ℕ → ℕ → Option ℕ → Type 0
  Refuses parent_ino name mode (some ino) =
      Fails exists (create d is_utf8 clock parent_ino name mode fs)
      × Fails exists (mkdir d is_utf8 clock parent_ino name mode fs)
  Refuses parent_ino name mode none =
      Fails not_found (unlink d is_utf8 clock parent_ino name fs)
      × Fails not_found (rmdir d is_utf8 clock parent_ino name fs)

  module _ (v : d.IsValid fs.store) where
    fails :
        {A : Type 0} (e : FsError) (parent_ino : ℕ) (name : List ℕ)
        (p : Result FsError A × AlbumFs S)
        → p ≡ (err e, (lookup d is_utf8 parent_ino name fs).1)
        → Fails e p
    fails e parent_ino name p same = (
      ap (λ q. q.0) same,
      subst (λ x. Same d fs x) (sym (ap (λ q. q.1) same))
          (Query-Same d is_utf8 v (look_up parent_ino name)),
    )

    -- On a well-formed device, a name that `lookup` finds is refused by `create` and `mkdir` with Exists, and one that it does
    -- not find by `unlink` and `rmdir` with NotFound; each leaves every block, the superblock and the bitmap as they are.
    pub lookup-Refuses :
        (parent_ino : ℕ) (name : List ℕ) (mode : ℕ) (found : Option ℕ)
        → (lookup d is_utf8 parent_ino name fs).0 ≡ ok found
        → Refuses parent_ino name mode found
    unfolding create mkdir unlink rmdir
    lookup-Refuses parent_ino name mode (some ino) e = (
      fails exists parent_ino name _
          (continue-ok _ (lookup d is_utf8 parent_ino name fs) (some ino) e),
      fails exists parent_ino name _
          (continue-ok _ (lookup d is_utf8 parent_ino name fs) (some ino) e),
    )
    lookup-Refuses parent_ino name mode none e = (
      fails not_found parent_ino name _
          (continue-ok _ (lookup d is_utf8 parent_ino name fs) none e),
      fails not_found parent_ino name _
          (continue-ok _ (lookup d is_utf8 parent_ino name fs) none e),
    )
