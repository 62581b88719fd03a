-- ===== src/Common/Slices.antt =====
-- Ranges of a list: Rust's `xs[lo..hi]`, and `xs[at..at + ys.len()].copy_from_slice(ys)`.
use Prim.Native.Nat.{ℕ, zero, suc, ◌+◌, ◌-◌, ◌≤◌, ◌<◌}
use mathlib.Core.Path.{◌≡◌, refl, sym, ap, ◌∙◌}
use mathlib.Core.List.{List, [], ◌∷◌, ◌++◌, append_assoc}
use native.Mathlib.Omega.{arith}
use album_fs.Common.Lists.{
  length, take, drop, get_or, length-append, length-take, length-drop, take-append-drop, take-all,
  take-append, take-append_exact, All, All-append,
}

module _ {ℓ} {A : Type ℓ} where
  unfoldable pub slice : List A → ℕ → ℕ → List A
  slice xs lo hi = take (hi - lo) (drop lo xs)

  -- The list with `ys` written over it from position `at` on.
  unfoldable pub copy_at : List A → ℕ → List A → List A
  copy_at xs at ys = take at xs ++ (ys ++ drop (at + length ys) xs)

module _ {ℓ} {A : Type ℓ} where
  pub length-slice :
      (xs : List A) (lo hi : ℕ) → lo ≤ hi → hi ≤ length xs → length (slice xs lo hi) ≡ hi - lo
  unfolding slice
  length-slice xs lo hi h k = omega (arith, length-take (hi - lo) (drop lo xs), length-drop lo xs)

  pub length-copy_at :
      (xs : List A) (at : ℕ) (ys : List A)
      → at + length ys ≤ length xs
      → length (copy_at xs at ys) ≡ length xs
  unfolding copy_at
  length-copy_at xs at ys h = omega (
    arith,
    length-append (take at xs) (ys ++ drop (at + length ys) xs),
    length-append ys (drop (at + length ys) xs),
    length-take at xs,
    length-drop (at + length ys) xs,
  )

  drop-append_left : (n : ℕ) (xs ys : List A) → n ≤ length xs → drop n (xs ++ ys) ≡ drop n xs ++ ys
  unfolding drop
  drop-append_left zero xs ys h = refl
  drop-append_left (suc n) [] ys h = absurd (omega arith)
  drop-append_left (suc n) (x ∷ xs) ys h = drop-append_left n xs ys (omega arith)

  drop-append_right :
      (n : ℕ) (xs ys : List A) → length xs ≤ n → drop n (xs ++ ys) ≡ drop (n - length xs) ys
  unfolding drop
  drop-append_right n [] ys h = ap (λ k. drop k ys) (omega arith)
  drop-append_right zero (x ∷ xs) ys h = absurd (omega arith)
  drop-append_right (suc n) (x ∷ xs) ys h =
      drop-append_right n xs ys (omega arith) ∙ ap (λ k. drop k ys) (omega arith)

  pub slice-append_left :
      (xs ys : List A) (lo hi : ℕ)
      → lo ≤ hi
      → hi ≤ length xs
      → slice (xs ++ ys) lo hi ≡ slice xs lo hi
  unfolding slice
  slice-append_left xs ys lo hi h k =
      ap (take (hi - lo)) (drop-append_left lo xs ys (omega arith))
      ∙ take-append (hi - lo) (drop lo xs) ys (omega (arith, length-drop lo xs))

  pub slice-append_right :
      (xs ys : List A) (lo hi : ℕ)
      → length xs ≤ lo
      → slice (xs ++ ys) lo hi ≡ slice ys (lo - length xs) (hi - length xs)
  unfolding slice
  slice-append_right xs ys lo hi h =
      ap (take (hi - lo)) (drop-append_right lo xs ys h)
      ∙ ap (λ k. take k (drop (lo - length xs) ys)) (omega arith)

  first-whole : (xs ys : List A) → slice (xs ++ ys) 0 (length xs) ≡ xs
  unfolding slice drop
  first-whole xs ys = ap (λ k. take k (xs ++ ys)) (omega arith) ∙ take-append_exact xs ys

  pub slice-copy_at_self :
      (xs : List A) (at : ℕ) (ys : List A)
      → at + length ys ≤ length xs
      → slice (copy_at xs at ys) at (at + length ys) ≡ ys
  unfolding copy_at
  slice-copy_at_self xs at ys h =
      slice-append_right (take at xs) _ at (at + length ys) (omega (arith, length-take at xs))
      ∙ front (at - length (take at xs)) (at + length ys - length (take at xs))
          (omega (arith, length-take at xs)) (omega (arith, length-take at xs))
    where
      front : (a b : ℕ) → a ≡ 0 → b ≡ length ys → slice (ys ++ drop (at + length ys) xs) a b ≡ ys
      front a b p q = rw (p, q) (first-whole ys _)

  pub slice-copy_at_before :
      (xs : List A) (at : ℕ) (ys : List A) (lo hi : ℕ)
      → at + length ys ≤ length xs
      → lo ≤ hi
      → hi ≤ at
      → slice (copy_at xs at ys) lo hi ≡ slice xs lo hi
  unfolding copy_at
  slice-copy_at_before xs at ys lo hi h k l =
      slice-append_left (take at xs) _ lo hi k (omega (arith, length-take at xs))
      ∙ sym (slice-append_left (take at xs) (drop at xs) lo hi k (omega (arith, length-take at xs)))
      ∙ ap (λ zs. slice zs lo hi) (take-append-drop at xs)

  pub slice-copy_at_after :
      (xs : List A) (at : ℕ) (ys : List A) (lo hi : ℕ)
      → at + length ys ≤ length xs
      → at + length ys ≤ lo
      → slice (copy_at xs at ys) lo hi ≡ slice xs lo hi
  unfolding copy_at
  slice-copy_at_after xs at ys lo hi h k =
      ap (λ zs. slice zs lo hi) (sym (append_assoc (take at xs) ys _))
      ∙ slice-append_right (take at xs ++ ys) (drop end xs) lo hi (omega (arith, front))
      ∙ ap₂' (omega (arith, front, length-take end xs))
      ∙ sym
          (slice-append_right (take end xs) (drop end xs) lo hi (omega (arith, length-take end xs)))
      ∙ ap (λ zs. slice zs lo hi) (take-append-drop end xs)
    where
      end : ℕ
      end = at + length ys

      front : length (take at xs ++ ys) ≡ at + length ys
      front = omega (arith, length-append (take at xs) ys, length-take at xs)

      ap₂' :
          {a b : ℕ}
          → a ≡ b
          → slice (drop end xs) (lo - a) (hi - a) ≡ slice (drop end xs) (lo - b) (hi - b)
      ap₂' p = ap (λ k. slice (drop end xs) (lo - k) (hi - k)) p

  pub slice_all : (xs : List A) (n : ℕ) → length xs ≤ n → slice xs 0 n ≡ xs
  unfolding slice drop
  slice_all xs n h = ap (λ k. take k xs) (omega arith) ∙ take-all n xs h

  take-drop_one :
      (xs : List A) (i : ℕ) (d : A) → i < length xs → take 1 (drop i xs) ≡ get_or xs i d ∷ []
  unfolding take drop get_or
  take-drop_one [] i d h = absurd (omega arith)
  take-drop_one (x ∷ xs) zero d h = refl
  take-drop_one (x ∷ xs) (suc i) d h = take-drop_one xs i d (omega arith)

  get_or-drop : (xs : List A) (i : ℕ) (x d : A) → take 1 (drop i xs) ≡ x ∷ [] → get_or xs i d ≡ x
  unfolding take drop get_or
  get_or-drop [] zero x d e = cc
  get_or-drop [] (suc i) x d e = cc
  get_or-drop (y ∷ xs) zero x d e = cc
  get_or-drop (y ∷ xs) (suc i) x d e = get_or-drop xs i x d e

  pub slice-one :
      (xs : List A) (i : ℕ) (d : A) → i < length xs → slice xs i (i + 1) ≡ get_or xs i d ∷ []
  unfolding slice
  slice-one xs i d h = ap (λ n. take n (drop i xs)) {y = 1} (omega arith) ∙ take-drop_one xs i d h

  -- What stands from a written position on.
  pub slice-copy_at_rear :
      (xs : List A) (at n : ℕ) (ys : List A)
      → at + length ys ≤ length xs
      → length xs ≡ n
      → slice (copy_at xs at ys) at n ≡ ys ++ drop (at + length ys) xs
  unfolding copy_at
  slice-copy_at_rear xs at n ys h k =
      slice-append_right (take at xs) rear at n (omega (arith, front))
      ∙ ap (λ m. slice rear (at - m) (n - m)) front
      ∙ ap (λ m. slice rear m (n - at)) (omega arith)
      ∙ slice_all rear (n - at) (
          omega
            (arith, length-append ys (drop (at + length ys) xs), length-drop (at + length ys) xs))
    where
      rear : List A
      rear = ys ++ drop (at + length ys) xs

      front : length (take at xs) ≡ at
      front = omega (arith, length-take at xs)

  -- A range within what was written.
  pub slice-copy_at_inside :
      (xs : List A) (at : ℕ) (ys : List A) (lo hi : ℕ)
      → at + length ys ≤ length xs
      → lo ≤ hi
      → hi ≤ length ys
      → slice (copy_at xs at ys) (at + lo) (at + hi) ≡ slice ys lo hi
  unfolding copy_at
  slice-copy_at_inside xs at ys lo hi h k l =
      slice-append_right (take at xs) _ (at + lo) (at + hi) (omega (arith, length-take at xs))
      ∙ ap (λ n. slice (ys ++ drop (at + length ys) xs) (at + lo - n) (at + hi - n)) front
      ∙ ap (λ n. slice (ys ++ drop (at + length ys) xs) n (at + hi - at)) (omega arith)
      ∙ ap (slice (ys ++ drop (at + length ys) xs) lo) (omega arith)
      ∙ slice-append_left ys (drop (at + length ys) xs) lo hi k l
    where
      front : length (take at xs) ≡ at
      front = omega (arith, length-take at xs)

  -- An element is the range of length one.
  pub get_or-slice :
      (xs : List A) (i : ℕ) (x d : A) → slice xs i (i + 1) ≡ x ∷ [] → get_or xs i d ≡ x
  unfolding slice
  get_or-slice xs i x d e = first xs i (i + 1 - i) (omega arith) e
    where
      first : (xs : List A) (i n : ℕ) → n ≡ 1 → take n (drop i xs) ≡ x ∷ [] → get_or xs i d ≡ x
      first xs i n p e = get_or-drop xs i x d (rw p at e)

module _ {ℓ κ} {A : Type ℓ} (P : A → Type κ) where
  pub All-take : (n : ℕ) (xs : List A) → All P xs → All P (take n xs)
  unfolding take
  All-take zero xs p = tt
  All-take (suc n) [] p = tt
  All-take (suc n) (x ∷ xs) p = (p.0, All-take n xs p.1)

  pub All-drop : (n : ℕ) (xs : List A) → All P xs → All P (drop n xs)
  unfolding drop
  All-drop zero xs p = p
  All-drop (suc n) [] p = tt
  All-drop (suc n) (x ∷ xs) p = All-drop n xs p.1

  pub All-slice : (xs : List A) (lo hi : ℕ) → All P xs → All P (slice xs lo hi)
  unfolding slice
  All-slice xs lo hi p = All-take (hi - lo) (drop lo xs) (All-drop lo xs p)

  pub All-copy_at :
      (xs : List A) (at : ℕ) (ys : List A) → All P xs → All P ys → All P (copy_at xs at ys)
  unfolding copy_at
  All-copy_at xs at ys p q =
      All-append P (take at xs) _ (All-take at xs p)
        (All-append P ys _ q (All-drop (at + length ys) xs p))

module _ {ℓ} {A : Type ℓ} where
  -- An element behind what was written.
  pub get_or-copy_at_after :
      (xs : List A) (at : ℕ) (ys : List A) (i : ℕ) (d : A)
      → at + length ys ≤ i
      → i < length xs
      → get_or (copy_at xs at ys) i d ≡ get_or xs i d
  get_or-copy_at_after xs at ys i d h k =
      get_or-slice (copy_at xs at ys) i (get_or xs i d) d
        (slice-copy_at_after xs at ys i (i + 1) (omega arith) h ∙ slice-one xs i d k)
