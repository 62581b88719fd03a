-- ===== src/Bitmap/Bits.antt =====
-- One bit of a byte, checked over all bytes and positions.
use album_fs.Common.{
  ℕ, ◌<◌, ◌≡◌, refl, Bool, true, false, not, ◌&&◌, ◌||◌, ltb, ltb→lt, ◌==◌, arith, passes,
  passes-at, same, same→eq,
}
use album_fs.Bitmap.{test_bit, set_bit, clear_bit}

-- For each byte and each two positions.
each : (ℕ → ℕ → ℕ → Bool) → Bool
each p = passes (λ x. passes (λ k. passes (p x k) 8) 8) 256

each_sound :
    (p : ℕ → ℕ → ℕ → Bool) (x k j : ℕ) → each p ≡ true → x < 256 → k < 8 → j < 8 → p x k j ≡ true
unfolding each
each_sound p x k j h hx hk hj =
    passes-at (p x k) 8
      (passes-at (λ k. passes (p x k) 8) 8
        (passes-at (λ x. passes (λ k. passes (p x k) 8) 8) 256 h hx) hk)
      hj

pub test_bit-set_bit :
    (x k j : ℕ) → x < 256 → k < 8 → j < 8 → test_bit (set_bit x k) j ≡ (k == j || test_bit x j)
unfolding each passes same test_bit set_bit
test_bit-set_bit x k j hx hk hj = same→eq _ _ (
    each_sound (λ x k j. same (test_bit (set_bit x k) j) (k == j || test_bit x j)) x k j refl hx hk
      hj)

pub test_bit-clear_bit :
    (x k j : ℕ)
    → x < 256
    → k < 8
    → j < 8
    → test_bit (clear_bit x k) j ≡ (not (k == j) && test_bit x j)
unfolding each passes same test_bit clear_bit
test_bit-clear_bit x k j hx hk hj = same→eq _ _ (
    each_sound (λ x k j. same (test_bit (clear_bit x k) j) (not (k == j) && test_bit x j)) x k j
      refl hx hk hj)

pub set_bit-lt : (x k : ℕ) → x < 256 → k < 8 → set_bit x k < 256
unfolding each passes set_bit
set_bit-lt x k hx hk =
    ltb→lt _ _ (each_sound (λ x k j. ltb (set_bit x k) 256) x k 0 refl hx hk (omega arith))

pub clear_bit-lt : (x k : ℕ) → x < 256 → k < 8 → clear_bit x k < 256
unfolding each passes clear_bit
clear_bit-lt x k hx hk =
    ltb→lt _ _ (each_sound (λ x k j. ltb (clear_bit x k) 256) x k 0 refl hx hk (omega arith))

pub test_bit-zero : (j : ℕ) → j < 8 → test_bit 0 j ≡ false
unfolding each passes same test_bit
test_bit-zero j hj = same→eq _ _ (passes-at (λ j. same (test_bit 0 j) false) 8 refl hj)
