-- ===== src/Album/Gives.antt =====
-- Rules for calls that give a result which is known from what the blocks hold, and leave all as it is.
use album_fs.Common.{
  ℕ, ◌<◌, ◌≡◌, inl, inr, refl, sym, ◌∙◌, ap, List, Bool, Bool-cases, true, false, Result, ok, err,
  panic, leb, leb→le, if◌then◌else◌, arith,
}
use mathlib.Core.Path.{subst}
use album_fs.Common.Actions.{continue, ◌>>=◌, lift}
use album_fs.Device.{BlockDevice}
use album_fs.Fs.{FsError, bad_block}
use album_fs.Inode.{Inode}
use album_fs.Album.{AlbumFs, on_store, on_fs, Mapping}
use album_fs.Album.Safety.{Same, reads-Same}

infixl 5 ◌then◌
abbrev pub ◌then◌ : {A B : Type 0} → Result FsError A → (A → Result FsError B) → Result FsError B
r then next = elim r [ panic ↦ panic | err e ↦ err e | ok a ↦ next a ]

module _ {S : Type 0} (d : BlockDevice S) where
  -- What reading a block reports.
  unfoldable pub look : S → ℕ → Result FsError (List ℕ)
  look s block = if leb (d.total_blocks s) block then err (bad_block block) else d.view s block

  module _ (fs0 : AlbumFs S) (inode : Inode) where
    abbrev pub Given :
        {A : Type 0} → Result FsError A → Result FsError A × (AlbumFs S × Inode) → Type 0
    Given r out = (out.0 ≡ r) × (out.1.1 ≡ inode) × Same d fs0 out.1.0

    -- A call on a file system that is as `fs0`, with the inode: it gives `r` and changes neither.
    pub record Gives {A : Type 0} (act : Mapping d A) (r : Result FsError A) : Type 0 where
      pub gives : (s : AlbumFs S) → Same d fs0 s → Given r (act (s, inode))

    pub Gives-lift : {A : Type 0} (r : Result FsError A) → Gives (lift r) r
    Gives-lift r = record { gives = λ s h. (refl, refl, h) }

    continues :
        {A B : Type 0} (next : A → Mapping d B) (f : A → Result FsError B) (r : Result FsError A)
        (p : Result FsError A × (AlbumFs S × Inode))
        → Given r p
        → ((a : A) → Gives (next a) (f a))
        → Given (r then f) (continue next p)
    continues next f r (ok a, (s, i)) (e, k, same) h =
        subst (λ x. Given (x then f) (next a (s, i))) e
          (subst (λ j. Given (f a) (next a (s, j))) (sym k) ((h a).gives s same))
    continues next f r (err x, (s, i)) (e, k, same) h =
        subst (λ y. Given (y then f) (err x, (s, i))) e (refl, k, same)
    continues next f r (panic, (s, i)) (e, k, same) h =
        subst (λ y. Given (y then f) (panic, (s, i))) e (refl, k, same)

    pub Gives-bind :
        {A B : Type 0} {act : Mapping d A} {next : A → Mapping d B} {r : Result FsError A}
        {f : A → Result FsError B}
        → Gives act r
        → ((a : A) → Gives (next a) (f a))
        → Gives (act >>= next) (r then f)
    Gives-bind {act = act} {next = next} {r = r} {f = f} h k = record {
      gives = λ s same. continues next f r (act (s, inode)) (h.gives s same) k;
    }

    pub Gives-if :
        {A : Type 0} (b : Bool) {x y : Mapping d A} {r q : Result FsError A}
        → Gives x r
        → Gives y q
        → Gives (if b then x else y) (if b then r else q)
    Gives-if true h k = h
    Gives-if false h k = k

    pub Gives-test :
        {A : Type 0} (b : Bool) {x y : Mapping d A} {r : Result FsError A}
        → (b ≡ false → Gives x r)
        → (b ≡ true → Gives y r)
        → Gives (elim b [ false ↦ x | true ↦ y ]) r
    Gives-test false h k = h refl
    Gives-test true h k = k refl

    below :
        (s : AlbumFs S) (block : ℕ)
        → Same d fs0 s
        → leb (d.total_blocks fs0.store) block ≡ false
        → block < d.total_blocks s.store
    below s block h e =
        let lt : block < d.total_blocks fs0.store = ground arith in omega (arith, h.total, lt)

    pub Gives-read :
        (block : ℕ) → Gives (on_fs d (on_store d (d.read_block block))) (look fs0.store block)
    unfolding look
    Gives-read block = record {
      gives = λ s h. elim (Bool-cases (leb (d.total_blocks fs0.store) block)) [
        | inl out ↦ rw out (
          ap (λ p. p.0)
              (d.read_block-outside s.store block (omega (arith, h.total, leb→le _ _ out))),
          refl,
          ((reads-Same d fs0).read_block block).keeps s h,
        )
        | inr inside ↦ rw inside (
          d.read_block-view s.store block h.valid (below s block h inside) ∙ h.view block,
          refl,
          ((reads-Same d fs0).read_block block).keeps s h,
        )
      ];
    }
