-- ===== src/Chunk/Order.antt =====
-- `order_positions` of stego/mod.rs: the positions of a markerless chunk, shuffled under a key.
use mathlib.Core.List.{Permᴰ}
use mathlib.Core.Path.{subst}
use album_fs.Common.{
  ℕ, zero, suc, ◌+◌, ◌<◌, ◌≤◌, ◌≡◌, ◌≢◌, refl, sym, ap, ◌∙◌, not, List, [], ◌∷◌, ◌++◌, length,
  to_le, ◌==◌, if◌then◌else◌, All, All-take, take, Result, ok, err, arith,
}
use album_fs.Fs.{CodecError, invalid_mode}

-- "albumfs carrier order v1".
abbrev pub order_context : List ℕ
order_context =
    b'a' ∷ b'l' ∷ b'b' ∷ b'u' ∷ b'm' ∷ b'f' ∷ b's' ∷ b' ' ∷ b'c' ∷ b'a' ∷ b'r' ∷ b'r' ∷ b'i' ∷ b'e'
    ∷ b'r' ∷ b' ' ∷ b'o' ∷ b'r' ∷ b'd' ∷ b'e' ∷ b'r' ∷ b' ' ∷ b'v' ∷ b'1' ∷ []

-- blake3's `derive_key` from a context and the material, and rand's `shuffle` under a ChaCha20
-- generator with a seed: it exchanges elements.
pub record Shuffle : Type 0 where
  pub derive_key : List ℕ → List ℕ → List ℕ
  pub shuffle : List ℕ → List ℕ → List ℕ
  pub shuffle-Perm : (seed xs : List ℕ) → Permᴰ xs (shuffle seed xs)

unfoldable pub order_positions : Shuffle → List ℕ → List ℕ → ℕ → Result CodecError (List ℕ)
order_positions s positions order_key chunk_index =
    let material = order_key ++ to_le 4 chunk_index in
    if not (length order_key == 32)
    then err invalid_mode
    else ok (s.shuffle (s.derive_key order_context material) positions)

-- The positions from `start` on, `n` of them.
unfoldable pub positions_from : ℕ → ℕ → List ℕ
positions_from start zero = []
positions_from start (suc n) = start ∷ positions_from (start + 1) n

-- Each position once.
abbrev pub Distinct : List ℕ → Type 0
Distinct [] = Unit {0}
Distinct (p ∷ ps) = All (λ q. p ≢ q) ps × Distinct ps

pub length-positions_from : (start n : ℕ) → length (positions_from start n) ≡ n
unfolding positions_from
length-positions_from start zero = refl
length-positions_from start (suc n) = ap suc (length-positions_from (start + 1) n)

pub take-positions_from :
    (start n m : ℕ) → n ≤ m → take n (positions_from start m) ≡ positions_from start n
unfolding positions_from take
take-positions_from start zero m h = refl
take-positions_from start (suc n) zero h = absurd (omega arith)
take-positions_from start (suc n) (suc m) h =
    ap (◌∷◌ start) (take-positions_from (start + 1) n m (omega arith))

pub All-positions_from :
    (P : ℕ → Type 0) (start n : ℕ)
    → ((p : ℕ) → start ≤ p → p < start + n → P p)
    → All P (positions_from start n)
unfolding positions_from
All-positions_from P start zero h = tt
All-positions_from P start (suc n) h = (
  h start (omega arith) (omega arith),
  All-positions_from P (start + 1) n (λ p lo hi. h p (omega arith) (omega arith)),
)

pub positions_from-Distinct : (start n : ℕ) → Distinct (positions_from start n)
unfolding positions_from
positions_from-Distinct start zero = tt
positions_from-Distinct start (suc n) = (
  All-positions_from (λ q. start ≢ q) (start + 1) n (λ p lo hi. omega arith),
  positions_from-Distinct (start + 1) n,
)

-- A permutation keeps the length, what holds of each element, and that they are distinct.
pub Perm-length : {xs ys : List ℕ} → Permᴰ xs ys → length ys ≡ length xs
Perm-length Permᴰ.nil = refl
Perm-length (Permᴰ.cons e p) = ap suc (Perm-length p)
Perm-length (Permᴰ.swap e f) = refl
Perm-length (Permᴰ.trans p q) = Perm-length q ∙ Perm-length p

pub Perm-All : (P : ℕ → Type 0) {xs ys : List ℕ} → Permᴰ xs ys → All P xs → All P ys
Perm-All P Permᴰ.nil h = tt
Perm-All P (Permᴰ.cons e p) h = (subst P e h.0, Perm-All P p h.1)
Perm-All P (Permᴰ.swap e f) (ha, (hb, h)) = (subst P f hb, (subst P e ha, h))
Perm-All P (Permᴰ.trans p q) h = Perm-All P q (Perm-All P p h)

pub Perm-Distinct : {xs ys : List ℕ} → Permᴰ xs ys → Distinct xs → Distinct ys
Perm-Distinct Permᴰ.nil h = tt
Perm-Distinct (Permᴰ.cons {l₂ = rest} e p) h =
    (subst (λ a. All (λ q. a ≢ q) rest) e (Perm-All _ p h.0), Perm-Distinct p h.1)
Perm-Distinct (Permᴰ.swap {l = rest} e f) ((ne, ha), (hb, h)) = (
  (λ same. ne (e ∙ sym same ∙ sym f), subst (λ a. All (λ q. a ≢ q) rest) f hb),
  (subst (λ a. All (λ q. a ≢ q) rest) e ha, h),
)
Perm-Distinct (Permᴰ.trans p q) h = Perm-Distinct q (Perm-Distinct p h)

pub Distinct-take : (n : ℕ) (xs : List ℕ) → Distinct xs → Distinct (take n xs)
unfolding take
Distinct-take zero xs d = tt
Distinct-take (suc n) [] d = tt
Distinct-take (suc n) (x ∷ xs) d = (All-take (λ q. x ≢ q) n xs d.0, Distinct-take n xs d.1)
