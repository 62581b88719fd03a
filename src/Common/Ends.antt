-- ===== src/Common/Ends.antt =====
-- What holds of the state after a method that succeeds, from what held before.
use mathlib.Core.Path.{◌≡◌, refl, sym, subst}
use mathlib.Core.Option.{Option, some}
use mathlib.Core.Bool.{Bool, true, false}
use album_fs.Common.Results.{Result, ok, err, panic, ok_or, ensure}
use album_fs.Common.Actions.{Action, continue, ◌>>=◌, ◌>>◌, lift}
use album_fs.Common.Keeps.{Keeps}

abbrev pub is_ok : {E A : Type 0} → Result E A → Bool
is_ok (ok a) = true
is_ok (err e) = false
is_ok panic = false

pub record Ends {E S A : Type 0} (P Q : S → Type 0) (act : Action E S A) : Type 0 where
  pub ends : (s : S) → P s → is_ok (act s).0 ≡ true → Q (act s).1

returned :
    {E S B : Type 0} (Q : S → Type 0) (r : Result E B) (p : Result E (Unit {0}) × S)
    → (is_ok p.0 ≡ true → Q p.1)
    → is_ok (continue (λ _. lift r) p).0 ≡ true
    → Q (continue (λ _. lift r) p).1
returned Q r (ok a, s) h e = h refl
returned Q r (err x, s) h e = cc
returned Q r (panic, s) h e = cc

followed :
    {E S B : Type 0} (Q : S → Type 0) (next : Action E S B) (p : Result E (Unit {0}) × S)
    → (is_ok p.0 ≡ true → Q p.1)
    → Keeps Q next
    → is_ok (continue (λ _. next) p).0 ≡ true
    → Q (continue (λ _. next) p).1
followed Q next (ok a, s) h k e = k.keeps s (h refl)
followed Q next (err x, s) h k e = cc
followed Q next (panic, s) h k e = cc

read_then :
    {E S A B : Type 0} (P Q : S → Type 0) (next : A → Action E S B) (how : Result E A) (s : S)
    → P s
    → ((a : A) → how ≡ ok a → Ends P Q (next a))
    → is_ok (continue next (how, s)).0 ≡ true
    → Q (continue next (how, s)).1
read_then P Q next (ok a) s p k e = (k a refl).ends s p e
read_then P Q next (err x) s p k e = cc
read_then P Q next panic s p k e = cc

module _ {E S : Type 0} {P Q : S → Type 0} where
  continues :
      {A B : Type 0} (next : A → Action E S B) (p : Result E A × S)
      → P p.1
      → ((a : A) → Ends P Q (next a))
      → is_ok (continue next p).0 ≡ true
      → Q (continue next p).1
  continues next (ok a, s) h k e = (k a).ends s h e
  continues next (err x, s) h k e = cc
  continues next (panic, s) h k e = cc

  -- What the first call keeps is there for what follows.
  infixr 5 ◌▶◌ ◌▷▶◌
  pub ◌▷▶◌ :
      {A B : Type 0} {act : Action E S A} {next : A → Action E S B}
      → Keeps P act
      → ((a : A) → Ends P Q (next a))
      → Ends P Q (act >>= next)
  ◌▷▶◌ {act = act} {next = next} h k = record {
    ends = λ s p e. continues next (act s) (h.keeps s p) k e;
  }

  pub ◌▶◌ :
      {B : Type 0} {act : Action E S (Unit {0})} {next : Action E S B}
      → Keeps P act
      → Ends P Q next
      → Ends P Q (act >> next)
  ◌▶◌ {act = act} {next = next} h k = record {
    ends = λ s p e. continues (λ _. next) (act s) (h.keeps s p) (λ _. k) e;
  }

  -- A result that is given at the end.
  pub Ends-return :
      {B : Type 0} {act : Action E S (Unit {0})} (r : Result E B)
      → Ends P Q act
      → Ends P Q (act >> lift r)
  Ends-return {act = act} r h = record { ends = λ s p e. returned Q r (act s) (h.ends s p) e }

  -- A value that is given, and a test that passes.
  pub Ends-value :
      {A B : Type 0} {o : Option A} {a : A} (x : E) (next : A → Action E S B)
      → o ≡ some a
      → Ends P Q (next a)
      → Ends P Q (lift (ok_or o x) >>= next)
  Ends-value x next e h = subst (λ o'. Ends P Q (lift (ok_or o' x) >>= next)) (sym e) h

  pub Ends-ensure :
      {B : Type 0} (test : Bool) (x : E) {next : Action E S B}
      → (test ≡ true → Ends P Q next)
      → Ends P Q (lift (ensure test x) >> next)
  Ends-ensure true x h = h refl
  Ends-ensure false x h = record { ends = λ s p e. cc }

  -- What follows keeps what the call ends with.
  pub Ends-then :
      {B : Type 0} {act : Action E S (Unit {0})} {next : Action E S B}
      → Ends P Q act
      → Keeps Q next
      → Ends P Q (act >> next)
  Ends-then {act = act} {next = next} h k = record {
    ends = λ s p e. followed Q next (act s) (h.ends s p) k e;
  }

  -- A call that only reads, and gives that result.
  pub Ends-reads :
      {A B : Type 0} {act : Action E S A} {next : A → Action E S B} (how : Result E A)
      → ((s : S) → P s → act s ≡ (how, s))
      → ((a : A) → how ≡ ok a → Ends P Q (next a))
      → Ends P Q (act >>= next)
  Ends-reads {next = next} how h k = record {
    ends = λ s p.
        subst (λ q. is_ok (continue next q).0 ≡ true → Q (continue next q).1) (sym (h s p))
          (read_then P Q next how s p k);
  }
