-- ===== src/Png/Bits.antt =====
-- Single bits of bytes, checked over all of them, and bytes that are read up to some bit.
use album_fs.Common.{
  ℕ, suc, ◌+◌, ◌-◌, ◌*◌, ◌/◌, ◌%◌, ◌^◌, ◌<◌, ◌≤◌, ◌≡◌, refl, ap, ◌∙◌, bit_and, bit_or, List, [],
  ◌∷◌, length, get_or, set, replicate, min, ltb, ltb→lt, ◌==◌, ==→eq, IsByte, All, passes,
  passes-at, arith,
}
use native.Mathlib.Decide.{dec_lt}
use album_fs.Png.{bit_of}

-- What the lowest bit of a sample becomes.
pub low-replaced : (v b : ℕ) → IsByte v → b < 2 → bit_and (bit_or (bit_and v 254) b) 1 ≡ b
unfolding passes
low-replaced v b hv hb = ==→eq _ _ (
    passes-at (λ b. bit_and (bit_or (bit_and v 254) b) 1 == b) 2
      (passes-at (λ v. passes (λ b. bit_and (bit_or (bit_and v 254) b) 1 == b) 2) 256 refl hv) hb)

pub replaced-IsByte : (v b : ℕ) → IsByte v → b < 2 → IsByte (bit_or (bit_and v 254) b)
unfolding passes
replaced-IsByte v b hv hb = ltb→lt _ _ (
    passes-at (λ b. ltb (bit_or (bit_and v 254) b) 256) 2
      (passes-at (λ v. passes (λ b. ltb (bit_or (bit_and v 254) b) 256) 2) 256 refl hv) hb)

pub bit_of-lt : (x k : ℕ) → IsByte x → k < 8 → bit_of x k < 2
unfolding passes
bit_of-lt x k hx hk = ltb→lt _ _ (
    passes-at (λ k. ltb (bit_of x k) 2) 8
      (passes-at (λ x. passes (λ k. ltb (bit_of x k) 2) 8) 256 refl hx) hk)

-- A byte whose bits from `k` on are cleared.
abbrev pub top : ℕ → ℕ → ℕ
top x k = x / 2 ^ (8 - k) * 2 ^ (8 - k)

top-next :
    (x k : ℕ) → IsByte x → k < 8 → bit_or (top x k) (bit_of x k * 2 ^ (7 - k)) ≡ top x (k + 1)
unfolding passes
top-next x k hx hk = ==→eq _ _ (
    passes-at (λ k. bit_or (top x k) (bit_of x k * 2 ^ (7 - k)) == top x (k + 1)) 8
      (passes-at (λ x. passes (λ k. bit_or (top x k) (bit_of x k * 2 ^ (7 - k)) == top x (k + 1)) 8)
        256 refl hx)
      hk)

top-zero : (x : ℕ) → IsByte x → top x 0 ≡ 0
top-zero x h = omega arith

-- Bytes whose bits from `n` on are cleared.
unfoldable pub cut : List ℕ → ℕ → List ℕ
cut [] n = []
cut (x ∷ xs) n = top x (min n 8) ∷ cut xs (n - 8)

pub cut-zero : (xs : List ℕ) → All IsByte xs → cut xs 0 ≡ replicate (length xs) 0
unfolding cut replicate
cut-zero [] h = refl
cut-zero (x ∷ xs) h = λ i. top-zero x h.0 i ∷ cut-zero xs h.1 i

pub cut-all : (xs : List ℕ) (n : ℕ) → length xs * 8 ≤ n → cut xs n ≡ xs
unfolding cut
cut-all [] n h = refl
cut-all (x ∷ xs) n h = λ i. whole i ∷ cut-all xs (n - 8) (omega arith) i
  where
    whole : top x (min n 8) ≡ x
    whole = ap (top x) {x = min n 8} {y = 8} (omega arith) ∙ omega arith

-- One step of the reading loop.
pub cut-next :
    (xs : List ℕ) (n : ℕ)
    → All IsByte xs
    → n < length xs * 8
    → set (cut xs n) (n / 8) (
        bit_or
          (get_or (cut xs n) (n / 8) 0)
          (bit_of (get_or xs (n / 8) 0) (n % 8) * 2 ^ (7 - n % 8)))
      ≡ cut xs (n + 1)
unfolding cut set get_or
cut-next [] n v h = absurd (omega arith)
cut-next (x ∷ xs) n v h = elim (dec_lt n 8) [
  | yes low ↦
      let quotient : n / 8 ≡ 0 = omega arith in
      let remainder : n % 8 ≡ n = omega arith in
      let this : min n 8 ≡ n = omega arith in
      let following : min (n + 1) 8 ≡ n + 1 = omega arith in
      let before : n - 8 ≡ 0 = omega arith in
      let after : n + 1 - 8 ≡ 0 = omega arith in
      rw (quotient, remainder, this, following, before, after)
        (ap (λ b. b ∷ cut xs 0) (top-next x n v.0 low))
  | no high ↦
      let quotient : n / 8 ≡ suc ((n - 8) / 8) = omega arith in
      let remainder : n % 8 ≡ (n - 8) % 8 = omega arith in
      let this : min n 8 ≡ 8 = omega arith in
      let following : min (n + 1) 8 ≡ 8 = omega arith in
      let after : n + 1 - 8 ≡ n - 8 + 1 = omega arith in
      rw (quotient, remainder, this, following, after)
        (ap (◌∷◌ (top x 8)) (cut-next xs (n - 8) v.1 (omega arith)))
]
