-- ===== src/Base/Rows.antt =====
-- Lookups in a table after a row was added, or the row of a primary key was written anew.
use Prim.Native.Nat.{◌+◌, ◌≤◌}
use mathlib.Core.Path.{◌≡◌, refl}
use mathlib.Core.Bool.{Bool, true, false, not}
use mathlib.Core.List.{List, [], ◌∷◌, ◌++◌}
use mathlib.Core.Option.{none, some}
use native.Mathlib.Omega.{arith}
use workspace.Base.Lists.{find?, update_first, count, any, filter}
use mathlib.Core.Path.{ap, ◌∙◌}
use mathlib.Core.Logic.{inl, inr}
use workspace.Base.Tests.{if◌then◌else◌, Bool-cases}

module _ {A : Type 0} (p : A → Bool) where
  pub find?-passes : (xs : List A) (x : A) → find? p xs ≡ some x → p x ≡ true
  find?-passes [] x h = cc
  find?-passes (y ∷ ys) x h = ground (arith, find?-passes ys x)

  pub find?-append_some :
      (xs : List A) (x : A) (ys : List A) → find? p xs ≡ some x → find? p (xs ++ ys) ≡ some x
  find?-append_some [] x ys h = cc
  find?-append_some (y ∷ xs) x ys h = ground (arith, find?-append_some xs x ys)

  pub find?-append_none : (xs ys : List A) → find? p xs ≡ none → find? p (xs ++ ys) ≡ find? p ys
  find?-append_none [] ys h = refl
  find?-append_none (y ∷ xs) ys h = ground (arith, find?-append_none xs ys)

  pub count-append : (xs ys : List A) → count p (xs ++ ys) ≡ count p xs + count p ys
  count-append [] ys = omega arith
  count-append (y ∷ xs) ys = omega (arith, count-append xs ys)

  pub find?-update_self :
      (f : A → A) (xs : List A) (x : A)
      → find? p xs ≡ some x
      → p (f x) ≡ true
      → find? p (update_first p f xs) ≡ some (f x)
  find?-update_self f [] x h e = cc
  find?-update_self f (y ∷ xs) x h e = ground (arith, find?-update_self f xs x)

module _ {A : Type 0} (p q : A → Bool) (f : A → A) where
  -- The row that `p` selects is not one that `q` looks for.
  pub find?-update_other :
      (xs : List A) (x : A)
      → find? p xs ≡ some x
      → q x ≡ false
      → q (f x) ≡ false
      → find? q (update_first p f xs) ≡ find? q xs
  find?-update_other [] x h e k = refl
  find?-update_other (y ∷ xs) x h e k = ground (arith, find?-update_other xs x)

  -- `p` and `q` select the same row.
  pub find?-update_same :
      (xs : List A) (x : A)
      → find? p xs ≡ some x
      → find? q xs ≡ some x
      → q (f x) ≡ true
      → find? q (update_first p f xs) ≡ some (f x)
  find?-update_same [] x h e k = cc
  find?-update_same (y ∷ xs) x h e k =
      ground (arith, find?-update_same xs x, find?-passes p xs x, find?-passes q xs x)

  -- Rewriting the row that `p` selects moves a count by what that row contributes.
  pub count-update :
      (xs : List A) (x : A)
      → find? p xs ≡ some x
      → count q (update_first p f xs) + (if q x then 1 else 0)
        ≡ count q xs + (if q (f x) then 1 else 0)
  count-update [] x h = cc
  count-update (y ∷ xs) x h = ground (arith, count-update xs x)

module _ {A : Type 0} (p : A → Bool) where
  pub find?-any : (xs : List A) → any p xs ≡ false → find? p xs ≡ none
  find?-any [] h = refl
  find?-any (y ∷ xs) h = ground (arith, find?-any xs)

  -- A row put at the end is found where no earlier one is.
  pub find?-snoc :
      (xs : List A) (y : A)
      → find? p (xs ++ y ∷ [])
        ≡ elim (find? p xs) [ some x ↦ some x | none ↦ if p y then some y else none ]
  find?-snoc [] y = refl
  find?-snoc (x ∷ xs) y = ground (arith, find?-snoc xs y)

module _ {A : Type 0} (p q : A → Bool) where
  -- Deleting the rows that `p` selects: those that `q` looks for go when they are among these, and
  -- stay when they are not.
  pub find?-filter_gone :
      ((x : A) → q x ≡ true → p x ≡ true)
      → (xs : List A) → find? q (filter (λ x. not (p x)) xs) ≡ none
  find?-filter_gone within [] = refl
  find?-filter_gone within (x ∷ xs) = ground (arith, find?-filter_gone within xs, within x)

  pub find?-filter_kept :
      ((x : A) → q x ≡ true → p x ≡ false)
      → (xs : List A) → find? q (filter (λ x. not (p x)) xs) ≡ find? q xs
  find?-filter_kept apart [] = refl
  find?-filter_kept apart (x ∷ xs) = ground (arith, find?-filter_kept apart xs, apart x)

module _ {A : Type 0} (p q : A → Bool) (f : A → A) (y : A) where
  -- Rewriting the row that `p` selects as `y`.
  pub find?-update_row :
      ((x : A) → p x ≡ true → (f x ≡ y) × (q x ≡ q y))
      → (q y ≡ true → (x : A) → q x ≡ p x)
      → (xs : List A) → any p xs ≡ true
      → find? q (update_first p f xs) ≡ (if q y then some y else find? q xs)
  find?-update_row same sole [] h = cc
  find?-update_row same sole (x ∷ xs) h = elim (Bool-cases (p x)) [
    | inl e ↦
        let (e1, e2) = same x e in
        let first : find? q (y ∷ xs) ≡ (if q y then some y else find? q (x ∷ xs)) =
          ground (arith) in
        let there : update_first p f (x ∷ xs) ≡ y ∷ xs = ground (arith) in
        ap (find? q) there ∙ first
    | inr e ↦ elim (Bool-cases (q y)) [
      | inl k ↦ let e1 = sole k x in ground (arith, find?-update_row same sole xs)
      | inr k ↦ ground (arith, find?-update_row same sole xs)
    ]
  ]

  pub find?-append_row :
      (q y ≡ true → (x : A) → q x ≡ p x)
      → (xs : List A) → any p xs ≡ false
      → find? q (xs ++ y ∷ []) ≡ (if q y then some y else find? q xs)
  find?-append_row sole [] h = refl
  find?-append_row sole (x ∷ xs) h = elim (Bool-cases (q y)) [
    | inl e ↦ let e1 = sole e x in ground (arith, find?-append_row sole xs)
    | inr e ↦ ground (arith, find?-append_row sole xs)
  ]

module _ {A : Type 0} (p : A → Bool) where
  pub count-filter_le : (q : A → Bool) (xs : List A) → count p (filter q xs) ≤ count p xs
  count-filter_le q [] = omega arith
  count-filter_le q (x ∷ xs) = ground (arith, count-filter_le q xs)

  pub count-any : (xs : List A) → any p xs ≡ false → count p xs ≡ 0
  count-any [] h = refl
  count-any (x ∷ xs) h = ground (arith, count-any xs)

  pub count-find : (xs : List A) → count p xs ≡ 0 → find? p xs ≡ none
  count-find [] h = refl
  count-find (x ∷ xs) h = ground (arith, count-find xs)

  -- A rewriting that the test does not see.
  pub count-update_first :
      (q : A → Bool) (f : A → A)
      → ((x : A) → p (f x) ≡ p x)
      → (xs : List A) → count p (update_first q f xs) ≡ count p xs
  count-update_first q f same [] = refl
  count-update_first q f same (x ∷ xs) = ground (arith, same x, count-update_first q f same xs)

  -- Rows that another test leaves out are no rows of this one.
  pub find?-filter_within :
      (q : A → Bool)
      → ((x : A) → p x ≡ true → q x ≡ true)
      → (xs : List A) → find? p (filter q xs) ≡ find? p xs
  find?-filter_within q within [] = refl
  find?-filter_within q within (x ∷ xs) = ground (arith, find?-filter_within q within xs, within x)

module _ {A : Type 0} (p : A → Bool) where
  pub find?-count : (xs : List A) → find? p xs ≡ none → count p xs ≡ 0
  find?-count [] h = refl
  find?-count (x ∷ xs) h = ground (arith, find?-count xs)
