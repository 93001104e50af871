-- ===== src/Runs/Ended.antt =====
-- The row of an ended run under the writes of RunRepositoryImpl (infrastructure/db/repositories.py).
pub mod Checks
pub mod Launch
pub mod Syncs
use workspace.Base.{
  ◌==◌, ◌&&◌, ◌≡◌, refl, ◌∙◌, sym, subst, Bool, true, false, Option, none, some, List, [], ◌∷◌,
  ◌++◌, ok, arith, find?, any, update_first, find?-append_some, find?-passes, if◌then◌else◌,
  Bool-cases, inl, inr,
}
use workspace.Domain.Errors.{ObjectId}
use workspace.Domain.Enums.{is_terminal}
use workspace.Domain.Models.{Run}
use workspace.Store.{World, insert_row}
use workspace.Store.Runs.{
  run_get, run_add, write_run, rewrite_run, claimed, claim_terminal, is_unfinished,
}
use workspace.Runs.Untouched.{SameTables}

-- The row of this id is this one.
abbrev pub IsRow : ObjectId → Run → World → Type 0
IsRow i r w = run_get i w ≡ some r

pub IsRow-same :
    (i : ObjectId) (r : Run) (w w' : World) → SameTables w w' → IsRow i r w → IsRow i r w'
unfolding run_get
IsRow-same i r w w' s h = rw (s.runs) h

-- The row is this one, and the run at hand is another.
abbrev pub Apart : ObjectId → Run → Run → World → Type 0
Apart i r run w = IsRow i r w × ((run.id == i) ≡ false)

pub Apart-same :
    (i : ObjectId) (r run : Run) (w w' : World)
    → SameTables w w'
    → Apart i r run w
    → Apart i r run w'
Apart-same i r run w w' s p = (IsRow-same i r w w' s p.0, p.1)

-- Rows that `p` selects are none that `q` looks for.
find?-update_apart :
    {A : Type 0} (p q : A → Bool) (f : A → A) (xs : List A)
    → ((x : A) → p x ≡ true → (q x ≡ false) × (q (f x) ≡ false))
    → find? q (update_first p f xs) ≡ find? q xs
find?-update_apart p q f [] h = refl
find?-update_apart p q f (y ∷ ys) h = elim (Bool-cases (p y)) [
  | inl hit ↦ let (a, b) = h y hit in ground arith
  | inr miss ↦ let rest = find?-update_apart p q f ys h in ground arith
]

pub write_run-IsRow :
    (i : ObjectId) (r run : Run) (w : World) → Apart i r run w → IsRow i r (write_run run w)
unfolding run_get write_run
write_run-IsRow i r run w p =
    find?-update_apart (λ (x : Run). x.id == run.id) (λ (x : Run). x.id == i) (rewrite_run run)
      w.runs (λ x hit. let other = p.1 in (ground arith, ground arith))
    ∙ p.0

pub claim_terminal-IsRow :
    (i : ObjectId) (r run : Run) (w : World)
    → Apart i r run w
    → IsRow i r ((claim_terminal run w).1)
unfolding run_get claim_terminal
claim_terminal-IsRow i r run w p =
    find?-update_apart (λ (x : Run). (x.id == run.id) && is_unfinished x.status)
      (λ (x : Run). x.id == i) (claimed run) w.runs
      (λ x hit. let other = p.1 in (ground arith, ground arith))
    ∙ p.0

any-found :
    {A : Type 0} (p q : A → Bool) (xs : List A) (x : A)
    → find? q xs ≡ some x
    → p x ≡ true
    → any p xs ≡ true
any-found p q [] x h e = absurd (cc)
any-found p q (y ∷ ys) x h e = elim (Bool-cases (p y)) [
  | inl hit ↦ rw hit refl
  | inr miss ↦ rw miss (any-found p q ys x (ground arith) e)
]

-- A run is added under a new id.
pub run_add-Apart :
    (i : ObjectId) (r run : Run) (w w' : World)
    → run_add run w ≡ ok (tt, w')
    → IsRow i r w
    → Apart i r run w'
unfolding run_add run_get
run_add-Apart i r run w w' h found = elim (Bool-cases (any (λ (x : Run). x.id == run.id) w.runs)) [
  | inl taken ↦ absurd (ground arith)
  | inr free ↦
      let rows : w'.runs ≡ w.runs ++ run ∷ [] = ground arith in
      let kept = find?-append_some (λ (x : Run). x.id == i) w.runs r (run ∷ []) found in
      let hit = find?-passes (λ (x : Run). x.id == i) w.runs r found in
      (
        rw rows kept,
        elim (Bool-cases (run.id == i)) [
          | inr other ↦ other
          | inl same ↦
              let present =
                any-found (λ (x : Run). x.id == run.id) (λ (x : Run). x.id == i) w.runs r found
                  (ground arith) in
              absurd (ground arith)
        ],
      )
]

-- A stored run that has not ended is not the one that has.
pub open_run-Apart :
    (i j : ObjectId) (r run : Run) (w : World)
    → IsRow i r w
    → is_terminal r.status ≡ true
    → run_get j w ≡ some run
    → is_terminal run.status ≡ false
    → Apart i r run w
unfolding run_get
open_run-Apart i j r run w row over found open_run = (
  row,
  elim (Bool-cases (run.id == i)) [
    | inr other ↦ other
    | inl same ↦
        let hit = find?-passes (λ (x : Run). x.id == j) w.runs run found in
        let e : j ≡ i = ground arith in
        let row' : find? (λ (x : Run). x.id == i) w.runs ≡ some run =
          subst (λ k. find? (λ (x : Run). x.id == k) w.runs ≡ some run) e found in
        absurd (ground arith)
  ],
)
