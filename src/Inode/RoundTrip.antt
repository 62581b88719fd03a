-- ===== src/Inode/RoundTrip.antt =====
-- `decode` reads back every field that `encode` wrote.
use album_fs.Common.{
  ℕ, zero, suc, ◌+◌, ◌*◌, ◌^◌, ◌≤◌, ◌<◌, ◌≡◌, refl, sym, ap, ◌∙◌, List, [], ◌∷◌, ◌++◌, length, All,
  get_elem?, some, replicate, slice, copy_all, Ascends, length-copy_all, slice-copy_all_before,
  slice-copy_all, length-replicate, to_le, from_le, from_le-to_le, IsU64, le→ltb, length-append,
  slice-append_left, ok, arith,
}
use mathlib.Core.Path.{subst}
use album_fs.Inode.{
  Inode, IsValid, inode_size, head_writes, pointer_writes, tail_writes, encode, decode,
  read_pointers,
}

pointer_writes-Ascends :
    (n index : ℕ) (ps : List ℕ)
    → 56 + (index + length ps) * 8 ≤ n
    → Ascends n (56 + index * 8) (pointer_writes index ps)
pointer_writes-Ascends n index [] h = omega arith
pointer_writes-Ascends n index (p ∷ ps) h = (
  omega arith,
  subst (λ k. Ascends n k (pointer_writes (index + 1) ps)) (omega arith)
      (pointer_writes-Ascends n (index + 1) ps (omega arith)),
)

-- The three stages of `encode`.
module _ (i : Inode) where
  stage_head : List ℕ
  stage_head = copy_all (replicate inode_size 0) (head_writes i)

  stage_pointers : List ℕ
  stage_pointers = copy_all stage_head (pointer_writes 0 i.direct)

module _ (i : Inode) (v : IsValid i) where
  length-zeros : length (replicate {A = ℕ} inode_size 0) ≡ 192
  length-zeros = length-replicate {A = ℕ} inode_size 0

  head-Ascends : Ascends (length (replicate {A = ℕ} inode_size 0)) 0 (head_writes i)
  head-Ascends = rw length-zeros (omega arith)

  length-head : length (stage_head i) ≡ 192
  unfolding stage_head
  length-head = length-copy_all _ 0 (head_writes i) head-Ascends ∙ length-zeros

  pointers-Ascends : Ascends (length (stage_head i)) 56 (pointer_writes 0 i.direct)
  pointers-Ascends =
      rw length-head (pointer_writes-Ascends 192 0 i.direct (omega (arith, v.twelve)))

  length-pointers : length (stage_pointers i) ≡ 192
  unfolding stage_pointers
  length-pointers = length-copy_all _ 56 (pointer_writes 0 i.direct) pointers-Ascends ∙ length-head

  tail-Ascends : Ascends (length (stage_pointers i)) 152 (tail_writes i)
  tail-Ascends = rw length-pointers (omega arith)

  pub length-encode : length (encode i) ≡ 192
  unfolding encode stage_pointers stage_head
  length-encode = length-copy_all _ 152 (tail_writes i) tail-Ascends ∙ length-pointers

  -- A field below the pointers, by its number among the writes.
  head_field :
      (k at : ℕ) (bytes : List ℕ)
      → get_elem? (head_writes i) k ≡ some (at, bytes)
      → at + length bytes ≤ 56
      → slice (encode i) at (at + length bytes) ≡ bytes
  unfolding encode stage_pointers stage_head
  head_field k at bytes e h =
      slice-copy_all_before (stage_pointers i) 152 (tail_writes i) at _ tail-Ascends (omega arith)
        (omega arith)
      ∙ slice-copy_all_before (stage_head i) 56 (pointer_writes 0 i.direct) at _ pointers-Ascends
          (omega arith) (omega arith)
      ∙ slice-copy_all _ 0 (head_writes i) k at bytes head-Ascends e

  tail_field :
      (k at : ℕ) (bytes : List ℕ)
      → get_elem? (tail_writes i) k ≡ some (at, bytes)
      → slice (encode i) at (at + length bytes) ≡ bytes
  unfolding encode stage_pointers stage_head
  tail_field k at bytes e = slice-copy_all _ 152 (tail_writes i) k at bytes tail-Ascends e

  pointer_field :
      (k at : ℕ) (bytes : List ℕ)
      → get_elem? (pointer_writes 0 i.direct) k ≡ some (at, bytes)
      → at + length bytes ≤ 152
      → slice (encode i) at (at + length bytes) ≡ bytes
  unfolding encode stage_pointers stage_head
  pointer_field k at bytes e h =
      slice-copy_all_before (stage_pointers i) 152 (tail_writes i) at (at + length bytes)
        tail-Ascends (omega arith) h
      ∙ slice-copy_all _ 56 (pointer_writes 0 i.direct) k at bytes pointers-Ascends e

get_elem?-pointer_writes :
    (index k p : ℕ) (ps : List ℕ)
    → get_elem? ps k ≡ some p
    → get_elem? (pointer_writes index ps) k ≡ some (56 + (index + k) * 8, to_le 8 p)
get_elem?-pointer_writes index k p [] e = cc
get_elem?-pointer_writes index zero p (q ∷ ps) e = ground arith
get_elem?-pointer_writes index (suc k) p (q ∷ ps) e =
    get_elem?-pointer_writes (index + 1) k p ps e ∙ ap (λ n. some (n, to_le 8 p)) (omega arith)

get_elem?-lt : (k p : ℕ) (ps : List ℕ) → get_elem? ps k ≡ some p → k < length ps
get_elem?-lt k p [] e = cc
get_elem?-lt zero p (q ∷ ps) e = omega arith
get_elem?-lt (suc k) p (q ∷ ps) e = omega (arith, get_elem?-lt k p ps e)

read_pointers-eq :
    (bytes : List ℕ) (index : ℕ) (ps : List ℕ)
    → ((k p : ℕ)
        → get_elem? ps k ≡ some p
        → slice bytes (56 + (index + k) * 8) (56 + (index + k) * 8 + 8) ≡ to_le 8 p)
    → All IsU64 ps
    → read_pointers bytes index (length ps) ≡ ps
unfolding read_pointers
read_pointers-eq bytes index [] h r = refl
read_pointers-eq bytes index (q ∷ ps) h r = λ i.
    (ap from_le (moved (56 + (index + 0) * 8) (56 + index * 8) q (omega arith) (h 0 q refl))
        ∙ from_le-to_le 8 q (omega (arith, r.0)))
      i
    ∷ read_pointers-eq bytes (index + 1) ps
        (λ k p e.
          moved (56 + (index + suc k) * 8) (56 + (index + 1 + k) * 8) p (omega arith)
            (h (suc k) p e))
        r.1 i
  where
    moved :
        (m n p : ℕ) → m ≡ n → slice bytes m (m + 8) ≡ to_le 8 p → slice bytes n (n + 8) ≡ to_le 8 p
    moved m n p e = subst (λ n. slice bytes n (n + 8) ≡ to_le 8 p) e

-- `decode` gives back the inode that `encode` wrote, whatever follows its 192 bytes; the inode's fields
-- are in the ranges of their types.
pub decode-encode : (i : Inode) (rest : List ℕ) → IsValid i → decode (encode i ++ rest) ≡ ok i
unfolding decode
decode-encode i rest v =
    rw
      (le→ltb (length (encode i ++ rest)) 192
        (omega (arith, length-append (encode i) rest, length-encode i v)))
      λ j. ok (record {
        mode =
            number 0 4 4 i.mode (head_field i v 0 0 (to_le 4 i.mode) refl (omega arith))
              (omega (arith, v.mode)) j;
        uid =
            number 4 8 4 i.uid (head_field i v 1 4 (to_le 4 i.uid) refl (omega arith))
              (omega (arith, v.uid)) j;
        gid =
            number 8 12 4 i.gid (head_field i v 2 8 (to_le 4 i.gid) refl (omega arith))
              (omega (arith, v.gid)) j;
        nlink =
            number 12 16 4 i.nlink (head_field i v 3 12 (to_le 4 i.nlink) refl (omega arith))
              (omega (arith, v.nlink)) j;
        size =
            number 16 24 8 i.size (head_field i v 4 16 (to_le 8 i.size) refl (omega arith))
              (omega (arith, v.size)) j;
        atime =
            number 24 32 8 i.atime (head_field i v 5 24 (to_le 8 i.atime) refl (omega arith))
              (omega (arith, v.atime)) j;
        mtime =
            number 32 40 8 i.mtime (head_field i v 6 32 (to_le 8 i.mtime) refl (omega arith))
              (omega (arith, v.mtime)) j;
        ctime =
            number 40 48 8 i.ctime (head_field i v 7 40 (to_le 8 i.ctime) refl (omega arith))
              (omega (arith, v.ctime)) j;
        block_count =
            number 48 52 4 i.block_count
              (head_field i v 8 48 (to_le 4 i.block_count) refl (omega arith))
              (omega (arith, v.block_count)) j;
        direct = pointers j;
        single_indirect =
            number 152 160 8 i.single_indirect
              (tail_field i v 0 152 (to_le 8 i.single_indirect) refl)
              (omega (arith, v.single_indirect)) j;
        double_indirect =
            number 160 168 8 i.double_indirect
              (tail_field i v 1 160 (to_le 8 i.double_indirect) refl)
              (omega (arith, v.double_indirect)) j;
      })
  where
    front :
        (lo hi : ℕ) → lo ≤ hi → hi ≤ 192 → slice (encode i ++ rest) lo hi ≡ slice (encode i) lo hi
    front lo hi h k = slice-append_left (encode i) rest lo hi h (omega (arith, length-encode i v))

    number :
        (lo hi w n : ℕ)
        → slice (encode i) lo hi ≡ to_le w n
        → (lo ≤ hi) × (hi ≤ 192) × (n < 256 ^ w)
        → from_le (slice (encode i ++ rest) lo hi) ≡ n
    number lo hi w n e h = ap from_le (front lo hi h.0 h.1 ∙ e) ∙ from_le-to_le w n h.2

    pointers : read_pointers (encode i ++ rest) 0 12 ≡ i.direct
    pointers =
        ap (read_pointers (encode i ++ rest) 0) (sym v.twelve)
        ∙ read_pointers-eq (encode i ++ rest) 0 i.direct
            (λ k p e.
              let inside = get_elem?-lt k p i.direct e in
              front (56 + (0 + k) * 8) (56 + (0 + k) * 8 + 8) (omega arith)
                (omega (arith, v.twelve))
              ∙ pointer_field i v k (56 + (0 + k) * 8) (to_le 8 p)
                  (get_elem?-pointer_writes 0 k p i.direct e) (omega (arith, v.twelve)))
            v.direct
