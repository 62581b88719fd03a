-- ===== src/Bitmap/Count.antt =====
-- Allocating a block takes one from `count_free`, and freeing one gives it back.
use album_fs.Common.{
  ℕ, zero, suc, ◌+◌, ◌≤◌, ◌<◌, ◌≡◌, ◌≢◌, refl, true, false, not, ◌&&◌, ◌==◌, sym, ap, ◌∙◌, ok,
  arith,
}
use native.Mathlib.Decide.{ℕ_discrete}
use mathlib.Core.Path.{subst}
use album_fs.Bitmap.Alloc.{Allocates, alloc_from-Allocates}
use album_fs.Bitmap.{alloc_from, Bitmap, is_set, set_block, clear_block, count_clear, count_free}
use album_fs.Bitmap.Invariant.{IsValid, set_block-IsValid, is_set-set_block, is_set-clear_block}

-- Bitmaps that agree on the blocks counted have the same count.
count_clear-agree :
    (a b : Bitmap) (from n : ℕ)
    → ((j : ℕ) → from ≤ j → j < from + n → is_set a j ≡ is_set b j)
    → count_clear a from n ≡ count_clear b from n
unfolding count_clear
count_clear-agree a b from zero h = refl
count_clear-agree a b from (suc n) h = rw (
  h from (omega arith) (omega arith),
  count_clear-agree a b (from + 1) n λ j lo hi. h j (omega arith) (omega arith),
)

-- One block more is set in `a`.
count_clear-one :
    (a b : Bitmap) (i from n : ℕ)
    → ((j : ℕ) → j < from + n → j ≢ i → is_set a j ≡ is_set b j)
    → is_set a i ≡ true
    → is_set b i ≡ false
    → from ≤ i
    → i < from + n
    → count_clear a from n + 1 ≡ count_clear b from n
unfolding count_clear
count_clear-one a b i from zero h s c lo hi = absurd (omega arith)
count_clear-one a b i from (suc n) h s c lo hi = elim (ℕ_discrete from i) [
  | yes p ↦
      rw (p, s, c)
        (omega (
          arith,
          count_clear-agree a b (i + 1) n λ j l u. h j (omega arith) (λ e. absurd (omega arith)),
        ))
  | no p ↦ rw (h from (omega arith) p) (
      omega (
        arith,
        count_clear-one a b i (from + 1) n (λ j u ne. h j (omega arith) ne) s c (omega arith)
            (omega arith),
      ))
]

total-set_block : (b : Bitmap) (i : ℕ) → (set_block b i).total_blocks ≡ b.total_blocks
unfolding set_block
total-set_block b i = ground arith

total-clear_block : (b : Bitmap) (i : ℕ) → (clear_block b i).total_blocks ≡ b.total_blocks
unfolding clear_block
total-clear_block b i = ground arith

-- Setting a clear block takes one from the free count.
pub count_free-set_block :
    (b : Bitmap) (i : ℕ)
    → IsValid b
    → i < b.total_blocks
    → is_set b i ≡ false
    → count_free (set_block b i) + 1 ≡ count_free b
unfolding count_free
count_free-set_block b i v h c =
    ap (λ n. count_clear (set_block b i) 0 n + 1) (total-set_block b i)
    ∙ count_clear-one (set_block b i) b i 0 b.total_blocks
        (λ j u ne. ground (arith, is_set-set_block b i j v h))
        (ground (arith, is_set-set_block b i i v h)) c (omega arith) (omega arith)

-- On a well-formed bitmap, clearing a set block below the total adds one to the free count.
pub count_free-clear_block :
    (b : Bitmap) (i : ℕ)
    → IsValid b
    → i < b.total_blocks
    → is_set b i ≡ true
    → count_free (clear_block b i) ≡ count_free b + 1
unfolding count_free
count_free-clear_block b i v h s =
    ap (count_clear (clear_block b i) 0) (total-clear_block b i)
    ∙ sym (
        count_clear-one b (clear_block b i) i 0 b.total_blocks
          (λ j u ne. ground (arith, is_set-clear_block b i j v h)) s
          (ground (arith, is_set-clear_block b i i v h)) (omega arith) (omega arith))

-- On a well-formed bitmap, a successful `alloc_from` takes exactly one block from the free count.
pub count_free-alloc_from :
    (b b' : Bitmap) (from block : ℕ)
    → IsValid b
    → alloc_from b from ≡ (ok block, b')
    → count_free b' + 1 ≡ count_free b
count_free-alloc_from b b' from block v e =
    let (lo, hi, clear, _, same) = subst (Allocates b from) e (alloc_from-Allocates b from) in
    rw same (count_free-set_block b block v hi clear)

-- On a well-formed bitmap, clearing the block that a successful `alloc_from` gave out restores whether
-- each block is set.
pub is_set-clear_block-alloc_from :
    (b b' : Bitmap) (from block j : ℕ)
    → IsValid b
    → alloc_from b from ≡ (ok block, b')
    → is_set (clear_block b' block) j ≡ is_set b j
is_set-clear_block-alloc_from b b' from block j v e =
    let (lo, hi, clear, _, same) = subst (Allocates b from) e (alloc_from-Allocates b from) in
    rw same (
      is_set-clear_block (set_block b block) block j (set_block-IsValid b block v)
        (rw (total-set_block b block) hi)
      ∙ undo clear hi)
  where
    undo :
        is_set b block ≡ false
        → block < b.total_blocks
        → (not (block == j) && is_set (set_block b block) j) ≡ is_set b j
    undo clear hi =
        ground (arith, is_set-set_block b block j v hi, ap (is_set b) {x = block} {y = j})
