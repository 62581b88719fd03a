-- ===== src/Bitmap/Alloc.antt =====
-- `alloc_from` gives out the first clear block, and fails only when there is none.
use album_fs.Common.{
  ◌⊎◌, ℕ, zero, suc, ◌+◌, ◌-◌, ◌≤◌, ◌<◌, ◌≡◌, refl, inl, inr, true, false, Bool-cases, Result, ok,
  err, panic, suc, arith,
}
use mathlib.Core.Path.{subst}
use album_fs.Fs.{FsError, no_space}
use album_fs.Bitmap.{Bitmap, is_set, set_block, alloc_loop, alloc_from}
use album_fs.Bitmap.Invariant.{IsValid, set_block-IsValid}

-- The `n` blocks from `from` on are set.
abbrev pub RunSet : Bitmap → ℕ → ℕ → Type 0
RunSet b from zero = Unit {0}
RunSet b from (suc n) = (is_set b from ≡ true) × RunSet b (from + 1) n

-- Every block from `from` up to `upto` is set.
abbrev pub AllSet : Bitmap → ℕ → ℕ → Type 0
AllSet b from upto = RunSet b from (upto - from)

abbrev pub Allocates : Bitmap → ℕ → Result FsError ℕ × Bitmap → Type 0
Allocates b from (ok block, b') =
    (from ≤ block)
    × (block < b.total_blocks)
    × (is_set b block ≡ false)
    × AllSet b from block
    × (b' ≡ set_block b block)
Allocates b from (err e, b') = (e ≡ no_space) × AllSet b from b.total_blocks × (b' ≡ b)
Allocates b from (panic, b') = ⊥

AllSet-none : (b : Bitmap) (from upto : ℕ) → upto ≤ from → AllSet b from upto
AllSet-none b from upto h = subst (RunSet b from) {x = 0} {y = upto - from} (omega arith) tt

AllSet-cons :
    (b : Bitmap) (from upto : ℕ)
    → from < upto
    → is_set b from ≡ true
    → AllSet b (from + 1) upto
    → AllSet b from upto
AllSet-cons b from upto lt h k =
    subst (RunSet b from) {x = suc (upto - (from + 1))} {y = upto - from} (omega arith) (h, k)

Allocates-skip :
    (b : Bitmap) (from : ℕ) (r : Result FsError ℕ × Bitmap)
    → from < b.total_blocks
    → is_set b from ≡ true
    → Allocates b (from + 1) r
    → Allocates b from r
Allocates-skip b from (ok block, b') lt h a =
    (omega (arith, a.0), a.1, a.2, AllSet-cons b from block (omega (arith, a.0)) h a.3, a.4)
Allocates-skip b from (err e, b') lt h a = (a.0, AllSet-cons b from b.total_blocks lt h a.1, a.2)
Allocates-skip b from (panic, b') lt h a = a

alloc_loop-Allocates :
    (b : Bitmap) (from n : ℕ)
    → from + n ≡ b.total_blocks ⊎ (n ≡ 0) × (b.total_blocks ≤ from)
    → Allocates b from (alloc_loop b from n)
unfolding alloc_loop
alloc_loop-Allocates b from zero h = (refl, AllSet-none b from b.total_blocks (omega arith), refl)
alloc_loop-Allocates b from (suc n) h = elim (Bool-cases (is_set b from)) [
  | inl e ↦ rw e (
      Allocates-skip b from (alloc_loop b (from + 1) n) (omega arith) e
        (alloc_loop-Allocates b (from + 1) n (inl (omega arith))))
  | inr e ↦ rw e (omega arith, omega arith, e, AllSet-none b from from (omega arith), refl)
]

-- On success the block is the first clear one from `from` on, it is below the total, and the only
-- change is that it is set; the error is `NoSpace`, comes exactly when every block from `from` on is
-- set, and changes nothing.
pub alloc_from-Allocates : (b : Bitmap) (from : ℕ) → Allocates b from (alloc_from b from)
unfolding alloc_from
alloc_from-Allocates b from = alloc_loop-Allocates b from (b.total_blocks - from) (omega arith)

abbrev pub Allocated-IsValid : Result FsError ℕ × Bitmap → Type 0
Allocated-IsValid r = IsValid r.1

pub alloc_loop-IsValid : (b : Bitmap) (from n : ℕ) → IsValid b → IsValid (alloc_loop b from n).1
unfolding alloc_loop
alloc_loop-IsValid b from zero v = v
alloc_loop-IsValid b from (suc n) v = elim (Bool-cases (is_set b from)) [
  | inl e ↦ rw e (alloc_loop-IsValid b (from + 1) n v)
  | inr e ↦ rw e (set_block-IsValid b from v)
]

pub alloc_from-IsValid : (b : Bitmap) (from : ℕ) → IsValid b → IsValid (alloc_from b from).1
unfolding alloc_from
alloc_from-IsValid b from v = alloc_loop-IsValid b from (b.total_blocks - from) v
