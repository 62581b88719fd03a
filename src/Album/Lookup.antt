-- ===== src/Album/Lookup.antt =====
-- `bmap` without allocation as a function of what the blocks hold.
use album_fs.Common.{
  ℕ, ◌-◌, ◌*◌, ◌/◌, ◌%◌, ◌≡◌, inl, inr, refl, List, Bool, Bool-cases, true, false, not, Option,
  none, ◌==◌, Result, ok, err, panic, leb, ltb, if◌then◌else◌, get_or, ◌&&◌,
}
use album_fs.Device.{BlockDevice}
use album_fs.Fs.{FsError, bad_block}
use album_fs.Inode.{Inode}
use album_fs.Album.{
  AlbumFs, Mapping, mapped, pointer_at, pointers_per_block, bmap_direct, follow, bmap_single,
  follow_outer, bmap_double, bmap,
}
use album_fs.Album.Safety.{start, Same}
use album_fs.Album.Gives.{look, ◌then◌, Given, Gives, Gives-lift, Gives-bind, Gives-if, Gives-read}

module _ (look : ℕ → Result FsError (List ℕ)) where
  -- The pointer at an index of a block of pointers, none where there is no such block.
  pub pointer_in : ℕ → ℕ → Result FsError ℕ
  pointer_in table index =
      if table == 0 then ok 0 else (look table then λ pointers. ok (pointer_at pointers index))

  -- The block of a file at an index: a direct one, one of the single indirect block, or one of a block
  -- of the double indirect block.
  unfoldable pub block_of : Inode → ℕ → Result FsError (Option ℕ)
  unfolding pointer_in
  block_of inode index =
      let relative = index - 12 in
      let far = relative - pointers_per_block in
      if ltb index 12
      then ok (mapped (get_or inode.direct index 0))
      else if ltb relative pointers_per_block
      then (pointer_in inode.single_indirect relative then λ p. ok (mapped p))
      else if leb (pointers_per_block * pointers_per_block) far
      then err (bad_block index)
      else (pointer_in inode.double_indirect (far / pointers_per_block) then λ inner.
          pointer_in inner (far % pointers_per_block) then λ p. ok (mapped p))

module _ {S : Type 0} (d : BlockDevice S) (fs0 : AlbumFs S) (inode : Inode) where
  -- Where nothing may be allocated, the test for it does not matter.
  never : {A : Type 0} (b : Bool) (x y : A) → (if b && false then x else y) ≡ y
  never true x y = refl
  never false x y = refl

  Gives-never :
      {A : Type 0} (b : Bool) (x : Mapping d A) {y : Mapping d A} {q : Result FsError A}
      → Gives d fs0 inode y q
      → Gives d fs0 inode (if b && false then x else y) q
  Gives-never true x h = h
  Gives-never false x h = h

  follow-Gives :
      (table index : ℕ)
      → Gives d fs0 inode
          (follow d table index false)
          (look d fs0.store table then λ pointers. ok (mapped (pointer_at pointers index)))
  unfolding follow
  follow-Gives table index = Gives-bind d fs0 inode (Gives-read d fs0 inode table) λ pointers.
      Gives-never (pointer_at pointers index == 0) _
        (Gives-lift d fs0 inode (ok (mapped (pointer_at pointers index))))

  bmap_direct-Gives :
      (index : ℕ)
      → Gives d fs0 inode (bmap_direct d index false) (ok (mapped (get_or inode.direct index 0)))
  unfolding bmap_direct
  bmap_direct-Gives index = record {
    gives = λ s h. rw (never (get_or inode.direct index 0 == 0)) (refl, refl, h);
  }

  -- A table that is not there has no pointer.
  pointer_in-eq :
      {A : Type 0} (table index : ℕ) (f : ℕ → Result FsError A)
      → (pointer_in (look d fs0.store) table index then f) ≡ (
          if not (table == 0)
          then (look d fs0.store table then λ pointers. f (pointer_at pointers index))
          else f 0)
  unfolding pointer_in
  pointer_in-eq table index f = elim (Bool-cases (table == 0)) [
    | inl absent ↦ rw absent refl
    | inr there ↦ rw there (join (look d fs0.store table))
  ]
    where
      join :
          (r : Result FsError (List ℕ))
          → ((r then λ pointers. ok (pointer_at pointers index)) then f)
            ≡ (r then λ pointers. f (pointer_at pointers index))
      join (ok p) = refl
      join (err e) = refl
      join panic = refl

  choose :
      {A : Type 0} (b : Bool) (r q : Result FsError A)
      (x y : Result FsError A × (AlbumFs S × Inode))
      → Given d fs0 inode r x
      → Given d fs0 inode q y
      → Given d fs0 inode (if b then r else q) (if b then x else y)
  choose true r q x y h k = h
  choose false r q x y h k = k

  bmap_single-Gives :
      (relative : ℕ)
      → Gives d fs0 inode
          (bmap_single d relative false)
          (pointer_in (look d fs0.store) inode.single_indirect relative then λ p. ok (mapped p))
  unfolding bmap_single
  bmap_single-Gives relative = record {
    gives = λ s h. rw (pointer_in-eq inode.single_indirect relative (λ p. ok (mapped p))) (
        choose (not (inode.single_indirect == 0)) _ _ _ _
          ((follow-Gives inode.single_indirect relative).gives s h) (refl, refl, h));
  }

  follow_outer-Gives :
      (table relative : ℕ)
      → Gives d fs0 inode (follow_outer d table relative false) (
          look d fs0.store table then λ outer.
          pointer_in
            (look d fs0.store)
            (pointer_at outer (relative / pointers_per_block))
            (relative % pointers_per_block)
          then λ p. ok (mapped p))
  unfolding follow_outer
  follow_outer-Gives table relative = Gives-bind d fs0 inode (Gives-read d fs0 inode table) λ outer.
      rw
        (pointer_in-eq (pointer_at outer (relative / pointers_per_block))
          (relative % pointers_per_block) (λ p. ok (mapped p)))
        (Gives-if d fs0 inode (not (pointer_at outer (relative / pointers_per_block) == 0))
          (follow-Gives (pointer_at outer (relative / pointers_per_block))
            (relative % pointers_per_block))
          (Gives-lift d fs0 inode (ok none)))

  bmap_double-Gives :
      (relative : ℕ)
      → Gives d fs0 inode (bmap_double d relative false) (
          pointer_in (look d fs0.store) inode.double_indirect (relative / pointers_per_block)
          then λ inner.
              pointer_in (look d fs0.store) inner (relative % pointers_per_block) then λ p.
              ok (mapped p))
  unfolding bmap_double
  bmap_double-Gives relative = record {
    gives = λ s h.
        rw
          (pointer_in-eq inode.double_indirect (relative / pointers_per_block) (λ inner.
            pointer_in (look d fs0.store) inner (relative % pointers_per_block) then λ p.
            ok (mapped p)))
          (choose (not (inode.double_indirect == 0)) _ _ _ _
            ((follow_outer-Gives inode.double_indirect relative).gives s h)
            (unfold pointer_in in (refl, refl, h)));
  }

  pub bmap-Gives :
      (index : ℕ) → Gives d fs0 inode (bmap d index false) (block_of (look d fs0.store) inode index)
  unfolding bmap block_of
  bmap-Gives index =
      let far : ℕ = index - 12 - pointers_per_block in
      Gives-if d fs0 inode (ltb index 12) (bmap_direct-Gives index) (
        Gives-if d fs0 inode (ltb (index - 12) pointers_per_block) (bmap_single-Gives (index - 12))
          (Gives-if d fs0 inode (leb (pointers_per_block * pointers_per_block) far)
            (Gives-lift d fs0 inode (err (bad_block index))) (bmap_double-Gives far)))

module _ {S : Type 0} (d : BlockDevice S) where
  -- On a well-formed device, `bmap` that may not allocate reports the block that the inode and its blocks of
  -- pointers give for the index, or the error of a block of pointers that cannot be read; the inode
  -- and all that the file system holds stay as they are.
  pub bmap_lem :
      (fs : AlbumFs S) (inode : Inode) (index : ℕ)
      → d.IsValid fs.store
      → ((bmap d index false (fs, inode)).0 ≡ block_of (look d fs.store) inode index)
        × ((bmap d index false (fs, inode)).1.1 ≡ inode)
        × Same d fs (bmap d index false (fs, inode)).1.0
  bmap_lem fs inode index v = (bmap-Gives d fs inode index).gives fs (start d fs v)
