-- ===== src/Common/Keeps.antt =====
-- Properties of the state that a method keeps, however it ends.
use mathlib.Core.Path.{◌≡◌, refl}
use mathlib.Core.Bool.{Bool, true, false}
use mathlib.Core.Option.{Option, none, some}
use album_fs.Common.Tests.{if◌then◌else◌}
use album_fs.Common.Results.{Result, ok, err, panic}
use album_fs.Common.Actions.{Action, continue, ◌>>=◌, ◌>>◌, lift, reads}

pub record Keeps {E S A : Type 0} (P : S → Type 0) (act : Action E S A) : Type 0 where
  pub keeps : (s : S) → P s → P (act s).1

module _ {E S : Type 0} {P : S → Type 0} where
  pub Keeps-lift : {A : Type 0} (r : Result E A) → Keeps P (lift r)
  Keeps-lift r = record { keeps = λ s h. h }

  pub Keeps-reads : {A : Type 0} (f : S → Result E A) → Keeps P (reads f)
  Keeps-reads f = record { keeps = λ s h. h }

  continues :
      {A B : Type 0} (next : A → Action E S B) (p : Result E A × S)
      → P p.1
      → ((a : A) → Keeps P (next a))
      → P (continue next p).1
  continues next (ok a, s) h k = (k a).keeps s h
  continues next (err e, s) h k = h
  continues next (panic, s) h k = h

  -- One call after another.
  infixr 5 ◌▷◌ ◌▸◌
  pub ◌▷◌ :
      {A B : Type 0} {act : Action E S A} {next : A → Action E S B}
      → Keeps P act
      → ((a : A) → Keeps P (next a))
      → Keeps P (act >>= next)
  ◌▷◌ {act = act} {next = next} h k = record {
    keeps = λ s p. continues next (act s) (h.keeps s p) k;
  }

  pub ◌▸◌ :
      {B : Type 0} {act : Action E S (Unit {0})} {next : Action E S B}
      → Keeps P act
      → Keeps P next
      → Keeps P (act >> next)
  ◌▸◌ {act = act} {next = next} h k = record {
    keeps = λ s p. continues (λ _. next) (act s) (h.keeps s p) (λ _. k);
  }

  pub Keeps-if :
      {A : Type 0} (b : Bool) {x y : Action E S A}
      → Keeps P x
      → Keeps P y
      → Keeps P (if b then x else y)
  Keeps-if true h k = h
  Keeps-if false h k = k

  -- The branches with what the test says.
  pub Keeps-if_cases :
      {A : Type 0} (b : Bool) {x y : Action E S A}
      → (b ≡ true → Keeps P x)
      → (b ≡ false → Keeps P y)
      → Keeps P (if b then x else y)
  Keeps-if_cases true h k = h refl
  Keeps-if_cases false h k = k refl

  pub Keeps-test :
      {A : Type 0} (b : Bool) {x y : Action E S A}
      → Keeps P x
      → Keeps P y
      → Keeps P (elim b [ false ↦ x | true ↦ y ])
  Keeps-test false h k = h
  Keeps-test true h k = k

  pub Keeps-option :
      {A B : Type 0} (o : Option B) {x : Action E S A} {f : B → Action E S A}
      → Keeps P x
      → ((b : B) → Keeps P (f b))
      → Keeps P (elim o [ none ↦ x | some b ↦ f b ])
  Keeps-option none h k = h
  Keeps-option (some b) h k = k b

  pub Keeps-found :
      {A B : Type 0} (o : Option B) {f : B → Action E S A} {x : Action E S A}
      → ((b : B) → Keeps P (f b))
      → Keeps P x
      → Keeps P (elim o [ some b ↦ f b | none ↦ x ])
  Keeps-found none h k = k
  Keeps-found (some b) h k = h b

-- A branch where the state is at hand, with what the test says.
pub either-state :
    {R S : Type 0} (P : S → Type 0) (b : Bool) (x y : R × S)
    → (b ≡ true → P x.1)
    → (b ≡ false → P y.1)
    → P (if b then x else y).1
either-state P true x y h k = h refl
either-state P false x y h k = k refl
