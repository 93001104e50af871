-- ===== src/Domain/Pagination/Laws.antt =====
-- domain/pagination.py: the pages of a list, one after the other.
use workspace.Base.{
  ℕ, zero, suc, pos, ◌+◌, ◌-◌, ◌*◌, ◌≤◌, ◌≡◌, ◌↔◌, refl, false, ◌∙◌, List, [], ◌∷◌, ◌++◌, length,
  take, drop, ok, arith, ap,
}
use native.Mathlib.Nat.{zero-mul}
use workspace.Domain.Pagination.{new_page_request, max_page_size, offset, has_more, paginate}

-- For natural numbers, a page request is accepted, unchanged, exactly from page 1 on, for 1 to
-- 200 rows.
pub new_page_request_iff :
    (p n : ℕ)
    → (new_page_request (pos p) (pos n) ≡ ok (record { page = p; page_size = n }))
      ↔ ((1 ≤ p) × (1 ≤ n) × (n ≤ max_page_size))
unfolding new_page_request
new_page_request_iff p n = (λ h. ground arith, λ h. ground arith)

one_less : (n : ℕ) → suc n - 1 ≡ n
one_less n = omega arith

suc_add : (a b : ℕ) → suc a + b ≡ suc (a + b)
suc_add a b = omega arith

module _ {A : Type 0} where
  take-nil : (n : ℕ) → take {A = A} n [] ≡ []
  take-nil zero = refl
  take-nil (suc n) = refl

  take-drop-add : (a b : ℕ) (xs : List A) → take a xs ++ take b (drop a xs) ≡ take (a + b) xs
  take-drop-add zero b xs = ground arith
  take-drop-add (suc a) b [] = ground (arith, take-nil b, take-nil (suc a + b))
  take-drop-add (suc a) b (x ∷ xs) = rw (suc_add a b) (ap (λ r. x ∷ r) (take-drop-add a b xs))

  -- The first `n` pages, one after the other.
  pub pages : List A → ℕ → ℕ → List A
  pages rows size zero = []
  pages rows size (suc n) =
      pages rows size n ++ (paginate rows (record { page = suc n; page_size = size })).items

  -- The first `n` pages are the first `n * size` rows.
  pub pages-eq-take : (rows : List A) (size n : ℕ) → pages rows size n ≡ take (n * size) rows
  unfolding pages paginate offset
  pages-eq-take rows size zero = rw zero-mul
  pages-eq-take rows size (suc n) =
      rw (pages-eq-take rows size n, one_less n, take-drop-add (n * size) size rows)
        (ap (λ k. take k rows) (grind arith))

  length-take-all : (n : ℕ) (xs : List A) → length xs ≤ n → take n xs ≡ xs
  length-take-all zero [] h = refl
  length-take-all zero (x ∷ xs) h = absurd (omega arith)
  length-take-all (suc n) [] h = refl
  length-take-all (suc n) (x ∷ xs) h = ap (λ r. x ∷ r) (length-take-all n xs (omega arith))

  -- If page n of a list, for any size, says that there are no more rows, the pages 1 to n, one
  -- after the other, are the list.
  pub pages_complete :
      (rows : List A) (size n : ℕ)
      → has_more (paginate rows (record { page = n; page_size = size })) ≡ false
      → pages rows size n ≡ rows
  unfolding has_more paginate
  pages_complete rows size n h =
      pages-eq-take rows size n ∙ length-take-all (n * size) rows (ground arith)
