-- ===== src/Common/Actions.antt =====
-- Methods on `&mut self` that return a `Result`: each gives the result beside the state that it
-- leaves, on the error path too.
use mathlib.Core.Path.{◌≡◌, sym, subst}
use album_fs.Common.Results.{Result, ok, err, panic}

abbrev pub Action : Type 0 → Type 0 → Type 0 → Type 0
Action E S A = S → Result E A × S

module _ {E S : Type 0} where
  abbrev pub continue : {A B : Type 0} → (A → Action E S B) → Result E A × S → Result E B × S
  continue next (ok a, s) = next a s
  continue next (err e, s) = (err e, s)
  continue next (panic, s) = (panic, s)

  infixl 5 ◌>>=◌ ◌>>◌
  abbrev pub ◌>>=◌ : {A B : Type 0} → Action E S A → (A → Action E S B) → Action E S B
  ◌>>=◌ act next s = continue next (act s)

  abbrev pub ◌>>◌ : {B : Type 0} → Action E S (Unit {0}) → Action E S B → Action E S B
  ◌>>◌ act next s = continue (λ _. next) (act s)

  -- A value, a value read off the state, and a change of the state.
  abbrev pub lift : {A : Type 0} → Result E A → Action E S A
  lift r s = (r, s)

  abbrev pub reads : {A : Type 0} → (S → Result E A) → Action E S A
  reads f s = (f s, s)

  abbrev pub modify : (S → S) → Action E S (Unit {0})
  modify f s = (ok tt, f s)

  -- A property of the state that a call has and that what follows keeps, by how the call ends.
  pub continue-rule :
      {A B : Type 0} (P Q : S → Type 0) (next : A → Action E S B) (p : Result E A × S)
      → P p.1
      → ((s : S) → P s → Q s)
      → ((a : A) (s : S) → P s → Q (next a s).1)
      → Q (continue next p).1
  continue-rule P Q next (ok a, s) h stop go = go a s h
  continue-rule P Q next (err e, s) h stop go = stop s h
  continue-rule P Q next (panic, s) h stop go = stop s h

  -- The same where the state after the call is known.
  pub continue-at :
      {A B : Type 0} (Q : S → Type 0) (next : A → Action E S B) (p : Result E A × S) (s : S)
      → p.1 ≡ s
      → Q s
      → ((a : A) → Q (next a s).1)
      → Q (continue next p).1
  continue-at Q next (ok a, s') s e stop go = subst (λ x. Q (next a x).1) (sym e) (go a)
  continue-at Q next (err x, s') s e stop go = subst Q (sym e) stop
  continue-at Q next (panic, s') s e stop go = subst Q (sym e) stop
