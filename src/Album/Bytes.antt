-- ===== src/Album/Bytes.antt =====
-- The bytes of a file as a list, in terms of its blocks.
use album_fs.Common.{
  ℕ, zero, suc, ◌+◌, ◌-◌, ◌*◌, ◌/◌, ◌%◌, ◌<◌, ◌≤◌, ◌≡◌, refl, ◌∙◌, ap, List, [], ◌∷◌, ◌++◌, Result,
  ok, le→ltb, get_or, length, replicate, slice, take, drop, drop-replicate, arith,
}
use album_fs.Fs.{FsError, ub}
use album_fs.Fs.{range}

pub ok_bytes : {xs ys : List ℕ} → ◌≡◌ {A = Result FsError (List ℕ)} (ok xs) (ok ys) → xs ≡ ys
ok_bytes e = cc

take-replicate : (n m : ℕ) → n ≤ m → take {A = ℕ} n (replicate m 0) ≡ replicate n 0
unfolding take replicate
take-replicate zero m h = refl
take-replicate (suc n) zero h = absurd (omega arith)
take-replicate (suc n) (suc m) h = ap (◌∷◌ 0) (take-replicate n m (omega arith))

pub slice-replicate :
    (m lo n : ℕ) → lo + n ≤ m → slice {A = ℕ} (replicate m 0) lo (lo + n) ≡ replicate n 0
unfolding slice
slice-replicate m lo n h =
    ap (take (lo + n - lo)) (drop-replicate lo m 0)
    ∙ ap (λ k. take k (replicate (m - lo) 0)) {x = lo + n - lo} {y = n} (omega arith)
    ∙ take-replicate n (m - lo) (omega arith)

pub range-within : (xs : List ℕ) (lo hi : ℕ) → hi ≤ length xs → range xs lo hi ≡ ok (slice xs lo hi)
unfolding range
range-within xs lo hi h = rw (le→ltb (length xs) hi h) refl

-- The `n` bytes from a position on, `block` being what the file has at a block's number.
unfoldable pub bytes_of : (ℕ → List ℕ) → ℕ → ℕ → List ℕ
bytes_of block position zero = []
bytes_of block position (suc n) =
    get_or (block (position / ub)) (position % ub) 0 ∷ bytes_of block (position + 1) n

pub bytes_of-append :
    (block : ℕ → List ℕ) (position a b : ℕ)
    → bytes_of block position (a + b) ≡ bytes_of block position a ++ bytes_of block (position + a) b
unfolding bytes_of
bytes_of-append block position zero b =
    ap (bytes_of block position) {x = 0 + b} {y = b} (omega arith)
    ∙ ap (λ p. bytes_of block p b) {x = position} {y = position + 0} (omega arith)
bytes_of-append block position (suc a) b =
    ap (bytes_of block position) {x = suc a + b} {y = suc (a + b)} (omega arith)
    ∙ ap (◌∷◌ (get_or (block (position / ub)) (position % ub) 0)) (
        bytes_of-append block (position + 1) a b
        ∙ ap (λ p. bytes_of block (position + 1) a ++ bytes_of block p b) {x = position + 1 + a}
            {y = position + suc a} (omega arith))

drop-cons : (xs : List ℕ) (lo : ℕ) → lo < length xs → drop lo xs ≡ get_or xs lo 0 ∷ drop (suc lo) xs
unfolding drop get_or
drop-cons [] lo h = absurd (omega arith)
drop-cons (x ∷ xs) zero h = refl
drop-cons (x ∷ xs) (suc lo) h = drop-cons xs lo (omega arith)

slice-cons :
    (xs : List ℕ) (lo n : ℕ)
    → lo + suc n ≤ length xs
    → slice xs lo (lo + suc n) ≡ get_or xs lo 0 ∷ slice xs (lo + 1) (lo + 1 + n)
unfolding slice take
slice-cons xs lo n h =
    ap (λ k. take k (drop lo xs)) {x = lo + suc n - lo} {y = suc n} (omega arith)
    ∙ ap (take (suc n)) (drop-cons xs lo (omega arith))
    ∙ ap (λ k. get_or xs lo 0 ∷ take k (drop (suc lo) xs)) {x = n} {y = lo + 1 + n - (lo + 1)}
        (omega arith)
    ∙ ap (λ k. get_or xs lo 0 ∷ take (lo + 1 + n - (lo + 1)) (drop k xs)) {x = suc lo} {y = lo + 1}
        (omega arith)

-- A piece of a block.
pub slice-bytes_of :
    (block : ℕ → List ℕ) (l within n : ℕ)
    → length (block l) ≡ ub
    → within + n ≤ ub
    → slice (block l) within (within + n) ≡ bytes_of block (l * ub + within) n
unfolding bytes_of slice take
slice-bytes_of block l within zero long room =
    ap (λ k. take k (drop within (block l))) {x = within + 0 - within} {y = 0} (omega arith)
slice-bytes_of block l within (suc n) long room =
    slice-cons (block l) within n (omega (arith, long, room)) ∙ (λ i.
      head i
      ∷ (slice-bytes_of block l (within + 1) n long (omega arith)
            ∙ ap (λ p. bytes_of block p n) {x = l * ub + (within + 1)} {y = l * ub + within + 1}
                (omega arith))
          i)
  where
    row : l ≡ (l * ub + within) / ub
    row = omega arith

    head :
        get_or (block l) within 0
        ≡ get_or (block ((l * ub + within) / ub)) ((l * ub + within) % ub) 0
    head =
        ap (λ k. get_or (block k) within 0) row
        ∙ ap (λ k. get_or (block ((l * ub + within) / ub)) k 0) {x = within}
            {y = (l * ub + within) % ub} (omega arith)
