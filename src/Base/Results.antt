-- ===== src/Base/Results.antt =====
-- A call that returns or raises, and one that also reads and writes the state of its transaction:
-- a raise rolls the transaction back, so it leaves no state behind.
pub mod Partial
use mathlib.Core.Path.{◌≡◌, refl}
use mathlib.Core.Bool.{Bool, true, false}
use mathlib.Core.Option.{Option, none, some}

pub data Result (E A : Type 0) : Type 0 where
  ok : A → Result E A
  err : E → Result E A

abbrev pub Action : Type 0 → Type 0 → Type 0 → Type 0
Action E S A = S → Result E (A × S)

module _ {E S A : Type 0} where
  pub pure : A → Action E S A
  pure a s = ok (a, s)

  pub raise : E → Action E S A
  raise e s = err e

  with_state : Result E A → S → Result E (A × S)
  with_state (ok a) s = ok (a, s)
  with_state (err e) s = err e

  -- A computation that reads the state, writes nothing and may raise.
  pub reads : (S → Result E A) → Action E S A
  unfolding with_state
  reads f s = with_state (f s) s

  pub gets : (S → A) → Action E S A
  gets f s = ok (f s, s)

  -- `if x is None: raise e`
  pub or_else_raise : E → Option A → Action E S A
  or_else_raise e none s = err e
  or_else_raise e (some a) s = ok (a, s)

module _ {E S : Type 0} where
  pub modify : (S → S) → Action E S (Unit {0})
  modify f s = ok (tt, f s)

  pub raise_if : Bool → E → Action E S (Unit {0})
  raise_if true e s = err e
  raise_if false e s = ok (tt, s)

module _ {E S A B : Type 0} where
  continue : Result E (A × S) → (A → Action E S B) → Result E (B × S)
  continue (ok (a, s)) f = f a s
  continue (err e) f = err e

  infixl 5 ◌>>=◌ ◌>>◌
  -- Opening this opens the other actions too.
  unfoldable pub ◌>>=◌ : Action E S A → (A → Action E S B) → Action E S B
  unfolding continue pure raise reads gets or_else_raise modify raise_if
  ◌>>=◌ m f s = continue (m s) f

  abbrev pub ◌>>◌ : Action E S A → Action E S B → Action E S B
  m >> n = m >>= λ _. n
