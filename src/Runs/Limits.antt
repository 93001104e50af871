-- ===== src/Runs/Limits.antt =====
-- GR-002a (application/run_service.py, `_check_concurrency`): the unfinished runs of a workspace on a
-- plan, and what its entitlement for the plan grants.
pub mod Checks
pub mod Launch
pub mod Submissions
pub mod Reruns
pub mod Syncs
use workspace.Base.{
  ℕ, ◌+◌, ◌≤◌, pos, ◌≤ℤ◌, ltb_ℤ, ◌==◌, ◌&&◌, ◌≡◌, refl, Bool, true, false, Option, none, some, List,
  [], ◌∷◌, ◌++◌, ok, err, arith, subst, sym, find?, any, count, count-append, update_first,
  find?-any, find?-snoc, if◌then◌else◌, Bool-cases, inl, inr, find?-passes,
}
use workspace.Domain.Errors.{ObjectId}
use workspace.Domain.Compute.{ResourceEntitlement}
use workspace.Domain.Models.{Run}
use workspace.Store.{World, Op, insert_row}
use workspace.Store.Runs.{
  run_get, run_add, write_run, rewrite_run, claimed, claim_terminal, is_unfinished, occupies,
  count_unfinished_for_plan, entitlement_get_for_plan,
}
use workspace.Runs.Untouched.{SameTables}

pub record WithinLimits (w : World) : Type 0 where
  pub within :
      (ws plan : ObjectId) (e : ResourceEntitlement)
      → entitlement_get_for_plan ws plan w ≡ some e
      → pos (count_unfinished_for_plan ws plan w) ≤ℤ e.max_concurrent_runs

-- One more run may be unfinished here.
pub record HasRoom (ws plan : ObjectId) (w : World) : Type 0 where
  pub entitlement : ResourceEntitlement
  pub granted : entitlement_get_for_plan ws plan w ≡ some entitlement
  pub room :
      ltb_ℤ (pos (count_unfinished_for_plan ws plan w)) entitlement.max_concurrent_runs ≡ true

-- The run is stored, under its id.
abbrev pub Stored : Run → World → Type 0
Stored run w = run_get run.id w ≡ some run

-- A row found under an id has that id.
pub run_get-Stored : (i : ObjectId) (run : Run) (w : World) → run_get i w ≡ some run → Stored run w
unfolding run_get
run_get-Stored i run w found =
    let hit = find?-passes (λ (r : Run). r.id == i) w.runs run found in
    let same : run.id ≡ i = ground arith in
    subst (λ j. find? (λ (r : Run). r.id == j) w.runs ≡ some run) (sym same) found

module _ (w w' : World) (s : SameTables w w') where
  same_count :
      (ws plan : ObjectId)
      → count_unfinished_for_plan ws plan w' ≡ count_unfinished_for_plan ws plan w
  unfolding count_unfinished_for_plan
  same_count ws plan = rw (s.runs) refl

  pub same_entitlement :
      (ws plan : ObjectId)
      → entitlement_get_for_plan ws plan w' ≡ entitlement_get_for_plan ws plan w
  unfolding entitlement_get_for_plan
  same_entitlement ws plan = rw (s.entitlements) refl

  pub WithinLimits-same : WithinLimits w → WithinLimits w'
  WithinLimits-same inv = record {
    within = λ ws plan e h. rw same_count (inv.within ws plan e (rw same_entitlement at h));
  }

  pub HasRoom-same : (ws plan : ObjectId) → HasRoom ws plan w → HasRoom ws plan w'
  HasRoom-same ws plan r = record {
    entitlement = r.entitlement;
    granted = rw same_entitlement (r.granted);
    room = rw same_count (r.room);
  }

  pub Stored-same : (run : Run) → Stored run w → Stored run w'
  unfolding run_get
  Stored-same run h = rw (s.runs) h

-- A row that occupies no more than before.
count_le-update :
    {A : Type 0} (p q : A → Bool) (f : A → A) (xs : List A)
    → ((x : A) → find? p xs ≡ some x → q x ≡ false → q (f x) ≡ false)
    → count q (update_first p f xs) ≤ count q xs
count_le-update p q f [] h = omega arith
count_le-update p q f (y ∷ ys) h = elim (Bool-cases (p y)) [
  | inl hit ↦ let kept = h y (rw hit refl) in ground arith
  | inr miss ↦ let rest = count_le-update p q f ys (λ x e. h x (rw miss e)) in ground arith
]

-- A run that is written as ended, or whose stored row is unfinished, takes no more room.
pub write_run-WithinLimits :
    (run : Run) (w : World)
    → ((r : Run)
        → run_get run.id w ≡ some r
        → is_unfinished r.status ≡ false
        → is_unfinished run.status ≡ false)
    → WithinLimits w
    → WithinLimits (write_run run w)
unfolding write_run count_unfinished_for_plan run_get entitlement_get_for_plan
write_run-WithinLimits run w ended inv = record {
  within = λ ws plan e h.
      let before = inv.within ws plan e h in
      let le =
        count_le-update (λ (r : Run). r.id == run.id) (occupies ws plan) (rewrite_run run) w.runs
          (λ x found free. let k = ended x found in ground arith) in
      omega (arith, before, le);
}

-- A claim of a terminal status frees room.
pub claim_terminal-WithinLimits :
    (run : Run) (w : World)
    → is_unfinished run.status ≡ false
    → WithinLimits w
    → WithinLimits ((claim_terminal run w).1)
unfolding claim_terminal count_unfinished_for_plan entitlement_get_for_plan
claim_terminal-WithinLimits run w ended inv = record {
  within = λ ws plan e h.
      let before = inv.within ws plan e h in
      let le =
        count_le-update (λ (r : Run). (r.id == run.id) && is_unfinished r.status) (occupies ws plan)
          (claimed run) w.runs (λ x found free. ground arith) in
      omega (arith, before, le);
}

run_add_row :
    (run : Run) (w w' : World)
    → run_add run w ≡ ok (tt, w')
    → (any (λ (x : Run). x.id == run.id) w.runs ≡ false)
      × (w'.runs ≡ w.runs ++ run ∷ [])
      × (w'.entitlements ≡ w.entitlements)
unfolding run_add
run_add_row run w w' h = elim (Bool-cases (any (λ (x : Run). x.id == run.id) w.runs)) [
  | inl taken ↦ absurd (ground arith)
  | inr free ↦ (free, ground arith, ground arith)
]

-- A run that is added where there is room keeps the limits, and is stored.
pub run_add-WithinLimits :
    (run : Run) (w w' : World)
    → run_add run w ≡ ok (tt, w')
    → WithinLimits w
    → HasRoom run.workspace_id run.compute_plan_id w
    → WithinLimits w'
unfolding count_unfinished_for_plan entitlement_get_for_plan
run_add-WithinLimits run w w' h inv has = record {
  within = λ ws plan e granted.
      let (free, rows, same) = run_add_row run w w' h in
      let before = inv.within ws plan e (rw same at granted) in
      let more = count-append (occupies ws plan) w.runs (run ∷ []) in
      let r = has.room in
      let g = has.granted in
      let now : count (occupies ws plan) w'.runs
          ≡ count (occupies ws plan) w.runs + count (occupies ws plan) (run ∷ []) =
        rw rows more in
      elim (Bool-cases (run.workspace_id == ws)) [
        | inr other ↦ ground arith
        | inl here ↦ elim (Bool-cases (run.compute_plan_id == plan)) [
          | inr other ↦ ground arith
          | inl there ↦
              let e1 : run.workspace_id ≡ ws = ground arith in
              let e2 : run.compute_plan_id ≡ plan = ground arith in
              let has' : HasRoom ws plan w =
                subst (λ p. HasRoom ws p w) e2
                  (subst (λ x. HasRoom x run.compute_plan_id w) e1 has) in
              let r' = has'.room in
              let g' = has'.granted in
              let same_e : has'.entitlement ≡ e = ground arith in ground arith
        ]
      ];
}

pub run_add-Stored : (run : Run) (w w' : World) → run_add run w ≡ ok (tt, w') → Stored run w'
unfolding run_get
run_add-Stored run w w' h =
    let (free, rows, same) = run_add_row run w w' h in
    let missing = find?-any (λ (x : Run). x.id == run.id) w.runs free in
    let found = find?-snoc (λ (x : Run). x.id == run.id) w.runs run in rw rows (ground arith)
