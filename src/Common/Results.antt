-- ===== src/Common/Results.antt =====
-- Rust's `Result` with `?`, and the panic of an assertion, an index or an `unwrap` that fails.
use mathlib.Core.Bool.{Bool, true, false}
use mathlib.Core.Option.{Option, none, some}

pub data Result {ℓ} (E : Type 0) (A : Type ℓ) : Type ℓ where
  ok : A → Result E A
  err : E → Result E A
  panic : Result E A

module _ {E : Type 0} where
  infixl 5 ◌>>=◌ ◌>>◌
  abbrev pub ◌>>=◌ {ℓ κ} : {A : Type ℓ} {B : Type κ} → Result E A → (A → Result E B) → Result E B
  r >>= next = elim r [ panic ↦ panic | err e ↦ err e | ok a ↦ next a ]

  abbrev pub ◌>>◌ {κ} : {B : Type κ} → Result E (Unit {0}) → Result E B → Result E B
  r >> next = elim r [ panic ↦ panic | err e ↦ err e | ok _ ↦ next ]

  -- `if !test { return Err(e) }`.
  abbrev pub ensure : Bool → E → Result E (Unit {0})
  ensure test e = elim test [ false ↦ err e | true ↦ ok tt ]

  -- `o.ok_or(e)`.
  abbrev pub ok_or {ℓ} : {A : Type ℓ} → Option A → E → Result E A
  ok_or o e = elim o [ none ↦ err e | some a ↦ ok a ]

  -- An index that panics out of range.
  abbrev pub or_panic {ℓ} : {A : Type ℓ} → Option A → Result E A
  or_panic o = elim o [ none ↦ panic | some a ↦ ok a ]

-- `r.map_err(f)`.
abbrev pub map_err {ℓ} : {E F : Type 0} {A : Type ℓ} → (E → F) → Result E A → Result F A
map_err f r = elim r [ panic ↦ panic | err e ↦ err (f e) | ok a ↦ ok a ]
