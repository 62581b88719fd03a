-- ===== src/Format/Blocks.antt =====
-- The bitmap that is written to its blocks is loaded from them, over any block device.
use album_fs.Common.{
  ℕ, zero, suc, ◌+◌, ◌-◌, ◌*◌, ◌<◌, ◌≤◌, ◌≡◌, refl, sym, ap, ◌∙◌, List, [], ◌∷◌, ◌++◌, length,
  length-slice, take, drop, slice, min, inl, inr, Bool-cases, ltb, le→ltb, Result, ok, err, panic,
  div_ceil, arith, length-take, take-all, leb, replicate, length-replicate, slice-copy_at_self,
}
use mathlib.Core.Path.{subst}
use mathlib.Core.List.{append-nil}
use album_fs.Common.Actions.{Action, continue, ◌>>=◌, lift}
use album_fs.Fs.{FsError, ub}
use album_fs.Block.{pad}
use album_fs.Block.RoundTrip.{length-pad}
use album_fs.Bitmap.{Bitmap, from_bytes}
use album_fs.Bitmap.Invariant
use album_fs.Superblock.{Superblock}
use album_fs.Fs.{range}
use album_fs.Device.{BlockDevice}
use album_fs.Format.{load_blocks, load_bitmap, bitmap_part, write_blocks, write_bitmap}

take-nil : (n : ℕ) → take {A = ℕ} n [] ≡ []
unfolding take
take-nil zero = refl
take-nil (suc n) = refl

take_add : (a b : ℕ) (xs : List ℕ) → take a xs ++ take b (drop a xs) ≡ take (a + b) xs
unfolding take drop
take_add zero b xs = ap (λ k. take k xs) {x = b} {y = 0 + b} (omega arith)
take_add (suc a) zero [] = sym (take-nil (suc a + 0))
take_add (suc a) (suc b) [] = sym (take-nil (suc a + suc b))
take_add (suc a) b (x ∷ xs) =
    ap (◌∷◌ x) (take_add a b xs)
    ∙ ap (λ k. take k (x ∷ xs)) {x = suc (a + b)} {y = suc a + b} (omega arith)

take-min : (n : ℕ) (xs : List ℕ) → take (min n (length xs)) xs ≡ take n xs
take-min n xs = elim (Bool-cases (leb n (length xs))) [
  | inl short ↦ ap (λ k. take k xs) (ground arith)
  | inr long ↦ take-all (min n (length xs)) xs (ground arith) ∙ sym (take-all n xs (ground arith))
]

take-part :
    (bytes : List ℕ) (index : ℕ)
    → take (index * ub) bytes ++ bitmap_part bytes index ≡ take ((index + 1) * ub) bytes
unfolding slice
take-part bytes index =
    elim (Bool-cases (ltb (index * ub) (min (index * ub + ub) (length bytes)))) [
      | inl some' ↦ rw some' (
          take_add (index * ub) (min (index * ub + ub) (length bytes) - index * ub) bytes
          ∙ ap (λ k. take k bytes) {y = min ((index + 1) * ub) (length bytes)} (ground arith)
          ∙ take-min ((index + 1) * ub) bytes)
      | inr none' ↦ rw none' (
          append-nil (take (index * ub) bytes)
          ∙ take-all (index * ub) bytes (ground arith)
          ∙ sym (take-all ((index + 1) * ub) bytes (ground arith)))
    ]

-- The payload of a block that was written, up to what was written.
range-pad : (part : List ℕ) → length part ≤ ub → range (pad part) 0 (length part) ≡ ok part
unfolding range pad
range-pad part h =
    rw (le→ltb (length (pad part)) (length part) (omega (arith, h, length-pad part h))) (
      ap ok (
        ap (slice (pad part) 0) {x = length part} {y = 0 + length part} (omega arith)
        ∙ slice-copy_at_self (replicate ub 0) 0 part
            (omega (arith, h, length-replicate {A = ℕ} ub 0))))

module _ {S : Type 0} (d : BlockDevice S) where
  -- The device `s'` has the parts of the bytes from `index` on in `n` blocks from `block` on.
  pub record Written (bytes : List ℕ) (index block n : ℕ) (s s' : S) : Type 0 where
    pub valid : d.IsValid s'
    pub total : d.total_blocks s' ≡ d.total_blocks s
    parts : (k : ℕ) → k < n → d.view s' (block + k) ≡ ok (pad (bitmap_part bytes (index + k)))
    before : (j : ℕ) → j < block → d.view s' j ≡ d.view s j

  length-bitmap_part :
      (bytes : List ℕ) (index : ℕ)
      → length (bitmap_part bytes index) ≡ min (length bytes - index * ub) ub
  length-bitmap_part bytes index =
      elim (Bool-cases (ltb (index * ub) (min (index * ub + ub) (length bytes)))) [
        | inl some' ↦ rw some' (
            length-slice bytes (index * ub) (min (index * ub + ub) (length bytes)) (ground arith)
              (omega arith)
            ∙ ground arith)
        | inr none' ↦ rw none' (ground arith)
      ]

  continue-ok :
      (next : Action FsError S (Unit {0})) (p : Result FsError (Unit {0}) × S)
      → p.0 ≡ ok tt
      → continue (λ _. next) p ≡ next p.1
  continue-ok next (ok _, s) e = refl
  continue-ok next (err x, s) e = cc
  continue-ok next (panic, s) e = cc

  continue-value :
      {A B : Type 0} (next : A → Action FsError S B) (p : Result FsError A × S) (a : A)
      → p.0 ≡ ok a
      → continue next p ≡ next a p.1
  continue-value next (r, s) a e = ap (λ x. continue next (x, s)) e

  -- The first part, and the rest.
  part_of :
      (bytes : List ℕ) (index block n : ℕ) (s s' : S)
      → ((k : ℕ) → k < n → d.view s' (block + 1 + k) ≡ ok (pad (bitmap_part bytes (index + 1 + k))))
      → d.view s' block ≡ ok (pad (bitmap_part bytes index))
      → (k : ℕ) → k < suc n
      → d.view s' (block + k) ≡ ok (pad (bitmap_part bytes (index + k)))
  part_of bytes index block n s s' rest first zero lt =
      ap (d.view s') {x = block + 0} {y = block} (omega arith)
      ∙ first
      ∙ ap (λ i. ok (pad (bitmap_part bytes i))) {x = index} {y = index + 0} (omega arith)
  part_of bytes index block n s s' rest first (suc k) lt =
      ap (d.view s') {x = block + suc k} {y = block + 1 + k} (omega arith)
      ∙ rest k (omega arith)
      ∙ ap (λ i. ok (pad (bitmap_part bytes i))) {x = index + 1 + k} {y = index + suc k}
          (omega arith)

  pub write_blocks-Written :
      (bytes : List ℕ) (index block n : ℕ) (s : S)
      → d.IsValid s
      → block + n ≤ d.total_blocks s
      → ((write_blocks d bytes index block n s).0 ≡ ok tt)
        × Written bytes index block n s (write_blocks d bytes index block n s).1
  unfolding write_blocks
  write_blocks-Written bytes index block zero s v h = (
    refl,
    record { valid = v; total = refl; parts = λ k lt. absurd (omega arith); before = λ j lt. refl },
  )
  write_blocks-Written bytes index block (suc n) s v h =
      let part : List ℕ = bitmap_part bytes index in
      let fits : length part ≤ ub = omega (arith, length-bitmap_part bytes index) in
      let inside : block < d.total_blocks s = omega arith in
      let s1 : S = (d.write_block block part s).1 in
      let v1 = d.write_block-IsValid s block part v inside fits in
      let t1 = d.total_blocks-write_block s block part v inside fits in
      let (done, w) =
        write_blocks-Written bytes (index + 1) (block + 1) n s1 v1 (omega (arith, h, t1)) in
      subst (λ q. (q.0 ≡ ok tt) × Written bytes index block (suc n) s q.1)
        (sym (
          continue-ok (write_blocks d bytes (index + 1) (block + 1) n) (d.write_block block part s)
            (d.write_block_ok s block part v inside fits)))
        (
          done,
          record {
            valid = w.valid;
            total = w.total ∙ t1;
            parts =
                part_of bytes index block n s (write_blocks d bytes (index + 1) (block + 1) n s1).1
                  w.parts
                  (w.before block (omega arith)
                    ∙ d.view-write_block_self s block part v inside fits);
            before = λ j lt.
                w.before j (omega arith)
                ∙ d.view-write_block_other s block j part v inside fits (λ e. omega (arith, e, lt));
          },
        )

  -- The loop of `load_bitmap`, on the bytes that are still missing.
  load_blocks-eq :
      (bytes : List ℕ) (needed index block n : ℕ) (s : S)
      → needed ≡ length bytes
      → d.IsValid s
      → block + n ≤ d.total_blocks s
      → ((k : ℕ) → k < n → d.view s (block + k) ≡ ok (pad (bitmap_part bytes (index + k))))
      → (load_blocks d needed block n (take (index * ub) bytes) s).0
        ≡ ok (take ((index + n) * ub) bytes)
  unfolding load_blocks
  load_blocks-eq bytes needed index block zero s e v h parts =
      ap (λ k. ok (take (k * ub) bytes)) {x = index} {y = index + 0} (omega arith)
  load_blocks-eq bytes needed index block (suc n) s e v h parts =
      let part : List ℕ = bitmap_part bytes index in
      let payload : List ℕ = pad part in
      let read : List ℕ = take (index * ub) bytes in
      let m : ℕ = min (needed - length read) ub in
      let inside : block < d.total_blocks s = omega arith in
      let got : (d.read_block block s).0 ≡ ok payload =
        d.read_block-view s block v inside
        ∙ ap (d.view s) {x = block} {y = block + 0} (omega arith)
        ∙ parts 0 (omega arith)
        ∙ ap (λ i. ok (pad (bitmap_part bytes i))) {x = index + 0} {y = index} (omega arith) in
      let s1 : S = (d.read_block block s).1 in
      let sized : m ≡ length part =
        omega (arith, e, length-bitmap_part bytes index, length-take (index * ub) bytes) in
      let taken : range payload 0 m ≡ ok part =
        ap (range payload 0) sized
        ∙ range-pad part (omega (arith, length-bitmap_part bytes index)) in
      ap (λ p. p.0)
        (continue-value
          (λ payload'. lift (range payload' 0 m) >>= λ part'.
            load_blocks d needed (block + 1) n (read ++ part'))
          (d.read_block block s) payload got)
      ∙ ap (λ p. p.0)
          (continue-value (λ part'. load_blocks d needed (block + 1) n (read ++ part'))
            (range payload 0 m, s1) part taken)
      ∙ ap (λ xs. (load_blocks d needed (block + 1) n xs s1).0) (take-part bytes index)
      ∙ load_blocks-eq bytes needed (index + 1) (block + 1) n s1 e
          (d.read_block-IsValid s block v inside)
          (omega (arith, h, d.total_blocks-read_block s block v inside))
          (λ k lt.
            d.view-read_block s block (block + 1 + k) v inside
            ∙ ap (d.view s) {x = block + 1 + k} {y = block + suc k} (omega arith)
            ∙ parts (suc k) (omega arith)
            ∙ ap (λ i. ok (pad (bitmap_part bytes i))) {x = index + suc k} {y = index + 1 + k}
                (omega arith))
      ∙ ap (λ k. ok (take (k * ub) bytes)) {x = index + 1 + n} {y = index + suc n} (omega arith)

  module _ (sb : Superblock) (bitmap : Bitmap) (s : S) where
    -- On a well-formed device that has the bitmap's region, and where the region has room for a well-formed
    -- bitmap of the superblock's blocks, writing the bitmap succeeds, and loading it then gives it back.
    pub load_bitmap-write_bitmap :
        d.IsValid s
        → Invariant.IsValid bitmap
        → bitmap.total_blocks ≡ sb.total_blocks
        → sb.bitmap_start ≤ sb.inode_table_start
        → sb.inode_table_start ≤ d.total_blocks s
        → div_ceil sb.total_blocks 8 ≤ (sb.inode_table_start - sb.bitmap_start) * ub
        → ((write_bitmap d sb bitmap s).0 ≡ ok tt)
          × ((load_bitmap d sb (write_bitmap d sb bitmap s).1).0 ≡ ok bitmap)
    unfolding write_bitmap load_bitmap take
    load_bitmap-write_bitmap v b same order inside room =
        let n : ℕ = sb.inode_table_start - sb.bitmap_start in
        let (done, w) = write_blocks-Written bitmap.bits 0 sb.bitmap_start n s v (omega arith) in
        let s1 : S = (write_blocks d bitmap.bits 0 sb.bitmap_start n s).1 in
        let loaded : (load_blocks d (div_ceil sb.total_blocks 8) sb.bitmap_start n [] s1).0
            ≡ ok bitmap.bits =
          load_blocks-eq bitmap.bits (div_ceil sb.total_blocks 8) 0 sb.bitmap_start n s1
            (omega (arith, b.sized, same)) w.valid (omega (arith, w.total)) w.parts
          ∙ ap ok (take-all ((0 + n) * ub) bitmap.bits (omega (arith, b.sized, same, room))) in
        (
          done,
          ap (λ p. p.0)
                (continue-value (λ bytes. lift (ok (from_bytes bytes sb.total_blocks)))
                  (load_blocks d (div_ceil sb.total_blocks 8) sb.bitmap_start n [] s1) bitmap.bits
                  loaded)
              ∙ ap ok (
                  ap (λ xs. from_bytes xs sb.total_blocks) (sym (append-nil bitmap.bits))
                  ∙ ap (from_bytes (bitmap.bits ++ [])) (sym same)
                  ∙ Invariant.from_bytes-as_bytes bitmap [] b),
        )
