-- ===== src/Common/Writes.antt =====
-- A record laid out in a buffer: a sequence of `copy_from_slice` at ascending offsets.
use Prim.Native.Nat.{ℕ, zero, suc, ◌+◌, ◌≤◌}
use mathlib.Core.Path.{◌≡◌, refl, ◌∙◌}
use mathlib.Core.List.{List, [], ◌∷◌}
use mathlib.Core.Option.{some}
use native.Mathlib.Omega.{arith}
use album_fs.Common.Lists.{length, get_elem?, All}
use album_fs.Common.Slices.{
  slice, copy_at, length-copy_at, slice-copy_at_self, slice-copy_at_before, All-copy_at,
}

-- One write: an offset and the bytes that go there.
abbrev pub Write : Type 0
Write = ℕ × List ℕ

unfoldable pub copy_all : List ℕ → List Write → List ℕ
copy_all xs [] = xs
copy_all xs ((at, ys) ∷ ws) = copy_all (copy_at xs at ys) ws

-- Each write begins where the one before it ended, or later, and the last ends within `n`.
abbrev pub Ascends : ℕ → ℕ → List Write → Type 0
Ascends n from [] = from ≤ n
Ascends n from ((at, ys) ∷ ws) = (from ≤ at) × Ascends n (at + length ys) ws

Ascends-le : (n from : ℕ) (ws : List Write) → Ascends n from ws → from ≤ n
Ascends-le n from [] h = h
Ascends-le n from ((at, ys) ∷ ws) h = omega (arith, h.0, Ascends-le n (at + length ys) ws h.1)

pub length-copy_all :
    (xs : List ℕ) (from : ℕ) (ws : List Write)
    → Ascends (length xs) from ws
    → length (copy_all xs ws) ≡ length xs
unfolding copy_all
length-copy_all xs from [] h = refl
length-copy_all xs from ((at, ys) ∷ ws) h =
    let fits : at + length ys ≤ length xs = Ascends-le _ _ ws h.1 in
    let same = length-copy_at xs at ys fits in
    length-copy_all (copy_at xs at ys) (at + length ys) ws (rw same h.1) ∙ same

-- What stands below the first write is not changed.
pub slice-copy_all_before :
    (xs : List ℕ) (from : ℕ) (ws : List Write) (lo hi : ℕ)
    → Ascends (length xs) from ws
    → lo ≤ hi
    → hi ≤ from
    → slice (copy_all xs ws) lo hi ≡ slice xs lo hi
unfolding copy_all
slice-copy_all_before xs from [] lo hi h k l = refl
slice-copy_all_before xs from ((at, ys) ∷ ws) lo hi h k l =
    let fits : at + length ys ≤ length xs = Ascends-le _ _ ws h.1 in
    let same = length-copy_at xs at ys fits in
    slice-copy_all_before (copy_at xs at ys) (at + length ys) ws lo hi (rw same h.1) k
      (omega (arith, h.0))
    ∙ slice-copy_at_before xs at ys lo hi fits k (omega (arith, h.0))

-- Each write is read back.
pub slice-copy_all :
    (xs : List ℕ) (from : ℕ) (ws : List Write) (k at : ℕ) (ys : List ℕ)
    → Ascends (length xs) from ws
    → get_elem? ws k ≡ some (at, ys)
    → slice (copy_all xs ws) at (at + length ys) ≡ ys
unfolding copy_all
slice-copy_all xs from [] k at ys h e = cc
slice-copy_all xs from ((at', ys') ∷ ws) zero at ys h e =
    let fits : at' + length ys' ≤ length xs = Ascends-le _ _ ws h.1 in
    let same = length-copy_at xs at' ys' fits in
    let p : at' ≡ at = cc in
    let q : ys' ≡ ys = cc in
    rw (← p, ← q)
      (slice-copy_all_before (copy_at xs at' ys') (at' + length ys') ws at' (at' + length ys')
          (rw same h.1) (omega arith) (omega arith)
        ∙ slice-copy_at_self xs at' ys' fits)
slice-copy_all xs from ((at', ys') ∷ ws) (suc k) at ys h e =
    let fits : at' + length ys' ≤ length xs = Ascends-le _ _ ws h.1 in
    let same = length-copy_at xs at' ys' fits in
    slice-copy_all (copy_at xs at' ys') (at' + length ys') ws k at ys (rw same h.1) e

pub All-copy_all {κ} :
    (P : ℕ → Type κ) (xs : List ℕ) (ws : List Write)
    → All P xs
    → All (λ w. All P w.1) ws
    → All P (copy_all xs ws)
unfolding copy_all
All-copy_all P xs [] p q = p
All-copy_all P xs ((at, ys) ∷ ws) p q =
    All-copy_all P (copy_at xs at ys) ws (All-copy_at P xs at ys p q.0) q.1
