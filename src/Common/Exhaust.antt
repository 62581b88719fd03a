-- ===== src/Common/Exhaust.antt =====
-- Tests over all numbers below a bound, which computation decides.
use Prim.Native.Nat.{ℕ, zero, suc, ◌<◌}
use mathlib.Core.Path.{◌≡◌, refl}
use mathlib.Core.Bool.{Bool, true, false, not}
use native.Mathlib.Decide.{ℕ_discrete}
use native.Mathlib.Omega.{arith}
use album_fs.Common.Tests.{if◌then◌else◌}

-- Every number under a bound passes a test, from the bound down.
unfoldable pub passes : (ℕ → Bool) → ℕ → Bool
passes test zero = true
passes test (suc n) = if test n then passes test n else false

pub passes-at :
    (test : ℕ → Bool) (bound : ℕ) {n : ℕ} → passes test bound ≡ true → n < bound → test n ≡ true
unfolding passes
passes-at test zero h lt = absurd (omega arith)
passes-at test (suc bound) {n} h lt = elim (ℕ_discrete n bound) [
  | yes here ↦ rw here (ground arith)
  | no other ↦ passes-at test bound (ground arith) (omega arith)
]

unfoldable pub same : Bool → Bool → Bool
same true b = b
same false b = not b

pub same→eq : (a b : Bool) → same a b ≡ true → a ≡ b
unfolding same
same→eq true true h = refl
same→eq true false h = cc
same→eq false true h = cc
same→eq false false h = refl
