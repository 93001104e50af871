-- ===== src/Base/Everywhere.antt =====
-- Properties of every row of a table, after it was written.
use mathlib.Core.Path.{◌≡◌, subst}
use mathlib.Core.Logic.{inl, inr}
use mathlib.Core.Bool.{Bool}
use mathlib.Core.Option.{some}
use mathlib.Core.List.{List, [], ◌∷◌, ◌++◌}
use native.Mathlib.Omega.{arith}
use workspace.Base.Lists.{All, filter, update_first, find?}
use workspace.Base.Tests.{on_if, Bool-cases}

module _ {A : Type 0} (P : A → Type 0) where
  pub All-append : (xs ys : List A) → All P xs → All P ys → All P (xs ++ ys)
  All-append [] ys h k = k
  All-append (x ∷ xs) ys (h, hs) k = (h, All-append xs ys hs k)

  pub All-filter : (p : A → Bool) (xs : List A) → All P xs → All P (filter p xs)
  All-filter p [] h = tt
  All-filter p (x ∷ xs) (h, hs) =
      on_if (All P) (p x) (λ _. (h, All-filter p xs hs)) (λ _. All-filter p xs hs)

  pub All-update_first :
      (p : A → Bool) (f : A → A)
      → ((x : A) → P x → P (f x))
      → (xs : List A) → All P xs
      → All P (update_first p f xs)
  All-update_first p f keep [] h = tt
  All-update_first p f keep (x ∷ xs) (h, hs) =
      on_if (All P) (p x) (λ _. (keep x h, hs)) (λ _. (h, All-update_first p f keep xs hs))

  pub All-find : (p : A → Bool) (xs : List A) (x : A) → All P xs → find? p xs ≡ some x → P x
  All-find p [] x h e = absurd (cc)
  All-find p (y ∷ xs) x (h, hs) e = elim (Bool-cases (p y)) [
    | inl k ↦ let e1 : y ≡ x = ground (arith) in subst P e1 h
    | inr k ↦ All-find p xs x hs (ground (arith))
  ]

module _ {A : Type 0} {P Q : A → Type 0} where
  pub All-map : ((x : A) → P x → Q x) → (xs : List A) → All P xs → All Q xs
  All-map f [] h = tt
  All-map f (x ∷ xs) (h, hs) = (f x h, All-map f xs hs)

module _ {A : Type 0} (P Q : A → Type 0) where
  pub All-both : (xs : List A) → All P xs → All Q xs → All (λ x. P x × Q x) xs
  All-both [] h k = tt
  All-both (x ∷ xs) (h, hs) (k, ks) = ((h, k), All-both xs hs ks)
