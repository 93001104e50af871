-- ===== src/Base/Results/Partial.antt =====
-- Partial correctness of actions, with a rule for each way to begin one.
use mathlib.Core.Path.{◌≡◌, refl, subst, ap, sym, ◌∙◌}
use native.Mathlib.Omega.{arith}
use mathlib.Core.Bool.{Bool, true, false}
use mathlib.Core.Option.{Option, none, some}
use workspace.Base.Results.{
  Result, ok, err, Action, ◌>>=◌, ◌>>◌, continue, with_state, or_else_raise, pure, raise, reads,
  gets, modify, raise_if,
}

-- Partial correctness: whenever `m` returns from a state in `P`, result and state satisfy `Q`.
pub record Ensures {E S A : Type 0} (P : S → Type 0) (m : Action E S A) (Q : A → S → Type 0)
    : Type 0 where
  pub at : (s : S) (a : A) (s' : S) → P s → m s ≡ ok (a, s') → Q a s'

module _ {E S A B : Type 0} where
  pub >>=-eq-ok :
      (m : Action E S A) (f : A → Action E S B) (s : S) {b : B} {s' : S}
      → (m >>= f) s ≡ ok (b, s')
      → (a : A) × (t : S) × (m s ≡ ok (a, t)) × (f a t ≡ ok (b, s'))
  unfolding ◌>>=◌
  >>=-eq-ok m f s {b} {s'} h = invert (m s) refl h
    where
      invert :
          (r : Result E (A × S))
          → m s ≡ r
          → continue r f ≡ ok (b, s')
          → (a : A) × (t : S) × (m s ≡ ok (a, t)) × (f a t ≡ ok (b, s'))
      invert (ok (a, t)) e k = (a, t, e, k)
      invert (err x) e k = cc

  pub Ensures-bind :
      {P : S → Type 0} (Q : A → S → Type 0) {R : B → S → Type 0} (m : Action E S A)
      (f : A → Action E S B)
      → Ensures P m Q
      → ((a : A) → Ensures (Q a) (f a) R)
      → Ensures P (m >>= f) R
  unfolding ◌>>=◌
  Ensures-bind Q m f hm hf = record {
    at = λ s b s' p h. let (a, t, e, k) = >>=-eq-ok m f s h in (hf a).at t b s' (hm.at s a t p e) k;
  }

module _ {E S B : Type 0} {P : S → Type 0} {R : B → S → Type 0} where
  pub ensures_raise : (e : E) → Ensures P (raise {A = B} e) R
  unfolding ◌>>=◌
  ensures_raise e = record { at = λ s a s' p h. cc }

  -- The rest may use what was read.
  pub after_reads :
      {A : Type 0} (f : S → Result E A) (k : A → Action E S B)
      → ((a : A) → Ensures (λ s. P s × (f s ≡ ok a)) (k a) R)
      → Ensures P (reads f >>= k) R
  unfolding ◌>>=◌
  after_reads {A} f k rest = record { at = λ s b s' p h. go s b s' p (f s) refl h }
    where
      go :
          (s : S) (b : B) (s' : S)
          → P s
          → (r : Result E A) → f s ≡ r
          → continue (with_state r s) k ≡ ok (b, s')
          → R b s'
      go s b s' p (ok a) e h = (rest a).at s b s' (p, e) h
      go s b s' p (err x) e h = absurd (cc)

  pub after_gets :
      {A : Type 0} (f : S → A) (k : A → Action E S B)
      → ((a : A) → Ensures (λ s. P s × (f s ≡ a)) (k a) R)
      → Ensures P (gets f >>= k) R
  unfolding ◌>>=◌
  after_gets f k rest = record { at = λ s b s' p h. (rest (f s)).at s b s' (p, refl) h }

  -- The rest may use that the test failed.
  pub after_raise_if :
      (c : Bool) (e : E) (k : Action E S B)
      → (c ≡ false → Ensures P k R)
      → Ensures P (raise_if c e >> k) R
  unfolding ◌>>=◌
  after_raise_if true e k rest = record { at = λ s b s' p h. absurd (cc) }
  after_raise_if false e k rest = record { at = λ s b s' p h. (rest refl).at s b s' p h }

  pub after_modify :
      {P' : S → Type 0} (f : S → S) (k : Action E S B)
      → ((s : S) → P s → P' (f s))
      → Ensures P' k R
      → Ensures P (modify f >> k) R
  unfolding ◌>>=◌
  after_modify f k keep rest = record { at = λ s b s' p h. rest.at (f s) b s' (keep s p) h }

  pub after_or_raise :
      {A : Type 0} (e : E) (o : Option A) (k : A → Action E S B)
      → ((a : A) → o ≡ some a → Ensures P (k a) R)
      → Ensures P (or_else_raise e o >>= k) R
  unfolding ◌>>=◌
  after_or_raise e none k rest = record { at = λ s b s' p h. absurd (cc) }
  after_or_raise e (some a) k rest = record { at = λ s b s' p h. (rest a refl).at s b s' p h }

  -- What was read is of no account for the rest.
  pub skip_gets :
      {A : Type 0} (f : S → A) (k : A → Action E S B)
      → ((a : A) → Ensures P (k a) R)
      → Ensures P (gets f >>= k) R
  unfolding ◌>>=◌
  skip_gets f k rest = record { at = λ s b s' p h. (rest (f s)).at s b s' p h }

  pub keep_then :
      (m : Action E S (Unit {0})) (k : Action E S B)
      → Ensures P m (λ _. P)
      → Ensures P k R
      → Ensures P (m >> k) R
  keep_then m k hm hk = Ensures-bind (λ _. P) m (λ _. k) hm (λ _. hk)

module _ {E S A : Type 0} {P : S → Type 0} where
  pub keep_pure : (a : A) → Ensures P (pure {E = E} a) (λ _. P)
  unfolding ◌>>=◌
  keep_pure a = record { at = λ s b s' p h. subst P (ground arith) p }

module _ {E S A : Type 0} {P P' : S → Type 0} {R : A → S → Type 0} {m : Action E S A} where
  pub weaken : ((s : S) → P s → P' s) → Ensures P' m R → Ensures P m R
  weaken f e = record { at = λ s a s' p h. e.at s a s' (f s p) h }

module _ {E S A : Type 0} {P : S → Type 0} {R : A → S → Type 0} where
  pub ends_pure : (a : A) → ((s : S) → P s → R a s) → Ensures P (pure {E = E} a) R
  unfolding ◌>>=◌
  ends_pure a f = record {
    at = λ s b s' p h.
        let e : s ≡ s' = ground arith in
        let e1 : a ≡ b = ground arith in subst (λ x. R x s') e1 (subst (R a) e (f s p));
  }

  pub ends_gets : (g : S → A) → ((s : S) → P s → R (g s) s) → Ensures P (gets {E = E} g) R
  unfolding ◌>>=◌
  ends_gets g f = record {
    at = λ s b s' p h.
        let e : s ≡ s' = ground arith in
        let e1 : g s ≡ b = ground arith in subst (λ t. R b t) e (subst (λ x. R x s) e1 (f s p));
  }

module _ {E S A B : Type 0} {P : S → Type 0} {R : B → S → Type 0} where
  -- What was read is of no account for the rest.
  pub skip_reads :
      (f : S → Result E A) (k : A → Action E S B)
      → ((a : A) → Ensures P (k a) R)
      → Ensures P (reads f >>= k) R
  skip_reads f k rest = after_reads f k (λ a. weaken (λ s p. p.0) (rest a))

  -- A check that does not read the state.
  pub after_check :
      (r : Result E A) (k : A → Action E S B)
      → ((a : A) → r ≡ ok a → Ensures P (k a) R)
      → Ensures P (reads (λ _. r) >>= k) R
  unfolding ◌>>=◌
  after_check (ok a) k rest = record { at = λ s b s' p h. (rest a refl).at s b s' p h }
  after_check (err x) k rest = record { at = λ s b s' p h. absurd (cc) }

  -- The rest may use what holds of everything that is read.
  pub note_gets :
      (F : A → Type 0) (f : S → A) (k : A → Action E S B)
      → ((s : S) → P s → F (f s))
      → ((a : A) → F a → Ensures P (k a) R)
      → Ensures P (gets f >>= k) R
  unfolding ◌>>=◌
  note_gets F f k note rest = record { at = λ s b s' p h. (rest (f s) (note s p)).at s b s' p h }

  -- A step that keeps the precondition.
  pub follow :
      (m : Action E S A) (k : A → Action E S B)
      → Ensures P m (λ _. P)
      → ((a : A) → Ensures P (k a) R)
      → Ensures P (m >>= k) R
  follow m k hm hk = Ensures-bind (λ _. P) m k hm hk

module _ {E S : Type 0} {P : S → Type 0} where
  pub keep_raise_if : (c : Bool) (e : E) → Ensures P (raise_if c e) (λ _. P)
  unfolding ◌>>=◌
  keep_raise_if true e = record { at = λ s b s' p h. absurd (cc) }
  keep_raise_if false e = record { at = λ s b s' p h. subst P (ground arith) p }

module _ {E S A B : Type 0} {P : S → Type 0} {R : B → S → Type 0} where
  -- A check whose result is known.
  pub check_ok :
      (r : Result E A) (k : A → Action E S B) (a : A)
      → r ≡ ok a
      → Ensures P (k a) R
      → Ensures P (reads (λ _. r) >>= k) R
  unfolding ◌>>=◌
  check_ok r k a e rest = record {
    at = λ s b s' p h. rest.at s b s' p (ap (λ x. continue (with_state x s) k) (sym e) ∙ h);
  }

-- Total correctness, step by step: what a computation goes on with.
module _ {E S A B : Type 0} where
  pub runs_on :
      (m : Action E S A) (f : A → Action E S B) (s : S) (a : A) (t : S)
      → m s ≡ ok (a, t)
      → (m >>= f) s ≡ f a t
  unfolding ◌>>=◌
  runs_on m f s a t e = ap (λ r. continue r f) e

module _ {E S A : Type 0} where
  pub reads-runs : (f : S → Result E A) (s : S) (a : A) → f s ≡ ok a → reads f s ≡ ok (a, s)
  unfolding ◌>>=◌
  reads-runs f s a e = ap (λ r. with_state r s) e

  pub or_else_raise-runs :
      (e : E) (o : Option A) (s : S) (a : A) → o ≡ some a → or_else_raise e o s ≡ ok (a, s)
  unfolding ◌>>=◌
  or_else_raise-runs e o s a h = ap (λ x. or_else_raise e x s) h

  pub gets-runs : (f : S → A) (s : S) → gets {E = E} f s ≡ ok (f s, s)
  unfolding ◌>>=◌
  gets-runs f s = refl

module _ {E S A : Type 0} {P : S → Type 0} {R R' : A → S → Type 0} {m : Action E S A} where
  pub conclude : ((a : A) (s : S) → R a s → R' a s) → Ensures P m R → Ensures P m R'
  conclude f e = record { at = λ s a s' p h. f a s' (e.at s a s' p h) }

module _ {E S : Type 0} {P Q : S → Type 0} where
  pub ends_modify : (f : S → S) → ((s : S) → P s → Q (f s)) → Ensures P (modify {E = E} f) (λ _. Q)
  unfolding ◌>>=◌
  ends_modify f g = record { at = λ s b s' p h. subst Q (ground arith) (g s p) }

module _ {E S A : Type 0} {P : S → Type 0} where
  pub keep_or_raise : (e : E) (o : Option A) → Ensures P (or_else_raise e o) (λ _. P)
  unfolding ◌>>=◌
  keep_or_raise e none = record { at = λ s b s' p h. absurd (cc) }
  keep_or_raise e (some a) = record { at = λ s b s' p h. subst P (ground arith) p }

module _ {E S A : Type 0} {P : S → Type 0} {R : A → S → Type 0} {m : Action E S A} where
  -- The rest may use what every state before it satisfies.
  pub learn : (F : Type 0) → ((s : S) → P s → F) → (F → Ensures P m R) → Ensures P m R
  learn F note rest = record { at = λ s a s' p h. (rest (note s p)).at s a s' p h }
