-- ===== src/Runs/Keys/Named.antt =====
-- What a key of application/run_service.py leads to.
use workspace.Base.{
  ℕ, ◌≡◌, refl, ap, ◌∙◌, ◌==◌, ==_refl, some, List, [], ◌∷◌, Text, Result, ok, err, arith, ◌>>=◌,
  find?, any, ◌++◌, find?-any, find?-update_self, find?-append_none, find?-passes, update_first,
  Bool-cases, inl, inr, Ensures, Ensures-bind, after_modify, ends_pure,
}
use workspace.Domain.Errors.{ObjectId}
use workspace.Domain.Models.{Time, Run, ProjectVersion, Endpoint, IdempotencyRecord}
use workspace.Domain.Snapshot.{RunSnapshot}
use workspace.Domain.Enums.{RunStatus}
use workspace.Store.{Env, World, Op}
use workspace.Store.Runs.{
  run_get, run_add, write_run, rewrite_run, run_update, idempotency_find, idempotency_attach_run,
  is_record_of,
}
use workspace.Runs.Ports.{Ports}
use workspace.Runs.Idempotency.{attach_idempotency}
use workspace.Runs.Submit.{submit, submitted}
use workspace.Runs.Untouched.{
  SameTables, Untouched, now-Untouched, record_event-Untouched, told_of_run-Untouched,
  try_submit-Untouched,
}
use workspace.Runs.Keys.{
  KeepsKeys, now-KeepsKeys, told_of_run-KeepsKeys, record_event-KeepsKeys, try_submit-KeepsKeys,
}

-- The key is taken by a request for a run.
pub record IsReserved (ws : ObjectId) (key : Text) (w : World) : Type 0 where
  pub row : IdempotencyRecord
  pub found : idempotency_find ws key w ≡ some row
  pub of_create : row.endpoint ≡ Endpoint.create_run

-- A run of the project is stored.
pub record HasRun (project i : ObjectId) (w : World) : Type 0 where
  pub row : Run
  pub found : run_get i w ≡ some row
  pub of_project : row.project_id ≡ project

-- The key leads to a run of the project.
pub record IsNamed (ws : ObjectId) (key : Text) (project i : ObjectId) (w : World) : Type 0 where
  pub row : IdempotencyRecord
  pub found : idempotency_find ws key w ≡ some row
  pub of_create : row.endpoint ≡ Endpoint.create_run
  pub names_run : row.run_id ≡ some i
  pub stored : HasRun project i w

pub IsReserved-same :
    (ws : ObjectId) (key : Text) (w w' : World)
    → w'.idempotency ≡ w.idempotency
    → IsReserved ws key w
    → IsReserved ws key w'
unfolding idempotency_find
IsReserved-same ws key w w' e p = record {
  row = p.row;
  found = ap (find? (is_record_of ws key)) e ∙ p.found;
  of_create = p.of_create;
}

pub HasRun-same :
    (project i : ObjectId) (w w' : World)
    → w'.runs ≡ w.runs
    → HasRun project i w
    → HasRun project i w'
unfolding run_get
HasRun-same project i w w' e p = record {
  row = p.row;
  found = ap (find? (λ r. r.id == i)) e ∙ p.found;
  of_project = p.of_project;
}

IsNamed-same :
    (ws : ObjectId) (key : Text) (project i : ObjectId) (w w' : World)
    → SameTables w w'
    → w'.idempotency ≡ w.idempotency
    → IsNamed ws key project i w
    → IsNamed ws key project i w'
unfolding idempotency_find
IsNamed-same ws key project i w w' s e p = record {
  row = p.row;
  found = ap (find? (is_record_of ws key)) e ∙ p.found;
  of_create = p.of_create;
  names_run = p.names_run;
  stored = HasRun-same project i w w' s.runs p.stored;
}

pub run_add-HasRun :
    (r : Run) (w w' : World) → run_add r w ≡ ok (tt, w') → HasRun r.project_id r.id w'
unfolding run_add run_get
run_add-HasRun r w w' h = elim (Bool-cases (any (λ (x : Run). x.id == r.id) w.runs)) [
  | inl taken ↦ absurd (ground arith)
  | inr free ↦
      let rows : w'.runs ≡ w.runs ++ r ∷ [] = ground arith in
      let absent = find?-any (λ (x : Run). x.id == r.id) w.runs free in
      let self = ==_refl r.id in
      record {
        row = r;
        found =
            ap (find? (λ (x : Run). x.id == r.id)) rows
            ∙ find?-append_none (λ (x : Run). x.id == r.id) w.runs (r ∷ []) absent
            ∙ ground arith;
        of_project = refl;
      }
]

updated-found :
    (new : Run) (i : ObjectId) (rows : List Run) (r : Run)
    → find? (λ (x : Run). x.id == i) rows ≡ some r
    → (r' : Run) × (find?
          (λ (x : Run). x.id == i)
          (update_first (λ (x : Run). x.id == new.id) (rewrite_run new) rows)
        ≡ some r')
      × (r'.project_id ≡ r.project_id)
updated-found new i [] r h = absurd (cc)
updated-found new i (x ∷ rows) r h = elim (Bool-cases (x.id == i)) [
  | inl here ↦ elim (Bool-cases (x.id == new.id)) [
    | inl hit ↦ (rewrite_run new x, ground arith, ground arith)
    | inr miss ↦ (r, ground arith, refl)
  ]
  | inr there ↦
      let (r', e, k) = updated-found new i rows r (ground arith) in
      elim (Bool-cases (x.id == new.id)) [
        | inl hit ↦ (r, ground arith, refl)
        | inr miss ↦ (r', ground arith, k)
      ]
]

write_run-IsNamed :
    (ws : ObjectId) (key : Text) (project i : ObjectId) (new : Run) (w : World)
    → IsNamed ws key project i w
    → IsNamed ws key project i (write_run new w)
unfolding write_run run_get idempotency_find
write_run-IsNamed ws key project i new w p =
    let (r, e, k) = updated-found new i w.runs p.stored.row p.stored.found in
    record {
      row = p.row;
      found = p.found;
      of_create = p.of_create;
      names_run = p.names_run;
      stored = record { row = r; found = e; of_project = k ∙ p.stored.of_project };
    }

pub attached-IsNamed :
    (ws : ObjectId) (c : ℕ) (key : Text) (project i : ObjectId) (w : World)
    → IsReserved ws (c ∷ key) w
    → HasRun project i w
    → IsNamed ws (c ∷ key) project i (attach_idempotency ws (some (c ∷ key)) i w)
unfolding attach_idempotency idempotency_attach_run idempotency_find run_get
attached-IsNamed ws c key project i w p q = record {
  row = record p.row { run_id = some i };
  found =
      find?-update_self (is_record_of ws (c ∷ key)) (λ r. record r { run_id = some i })
        w.idempotency p.row p.found
        (find?-passes (is_record_of ws (c ∷ key)) w.idempotency p.row p.found);
  of_create = p.of_create;
  names_run = refl;
  stored = record { row = q.row; found = q.found; of_project = q.of_project };
}

-- What is told of a run whose submission failed.
abbrev failed : Run → Text → Time → Run
failed run reason at = record run {
  status = RunStatus.submit_failed;
  failure_reason = reason;
  finished_at = some at;
}

-- Steps that leave both tables alone.
module _ (ws : ObjectId) (key : Text) (project i : ObjectId) where
  quiet :
      {A : Type 0} {m : Op A}
      → Untouched m
      → KeepsKeys m
      → Ensures (IsNamed ws key project i) m (λ _. IsNamed ws key project i)
  quiet u k = record {
    at = λ w a w' p h. IsNamed-same ws key project i w w' (u.at w a w' h) (k.at w a w' h) p;
  }

  module _ {A B : Type 0} where
    pub quiet_bind :
        {R : B → World → Type 0} (m : Op A) (f : A → Op B)
        → Untouched m
        → KeepsKeys m
        → ((a : A) → Ensures (IsNamed ws key project i) (f a) R)
        → Ensures (IsNamed ws key project i) (m >>= f) R
    quiet_bind m f u k rest = Ensures-bind (λ _. IsNamed ws key project i) m f (quiet u k) rest

  submitted-IsNamed :
      (env : Env) (run : Run) (r : Result Text Text)
      → Ensures
          (IsNamed ws key project i)
          (submitted env run r)
          (λ sent w. (sent.id ≡ run.id) × IsNamed ws key project i w)
  unfolding submitted run_update
  submitted-IsNamed env run (err reason) =
      quiet_bind _ _ (now-Untouched env) (now-KeepsKeys env) λ at.
        after_modify _ _ (write_run-IsNamed ws key project i _) (
          quiet_bind _ _ (record_event-Untouched env _ _) (record_event-KeepsKeys env _ _) λ _.
            quiet_bind _ _ (told_of_run-Untouched env _ (failed run reason at) reason)
              (told_of_run-KeepsKeys env _ (failed run reason at) reason)
              λ _. ends_pure _ (λ w p. (refl, p)))
  submitted-IsNamed env run (ok job) = quiet_bind _ _ (now-Untouched env) (now-KeepsKeys env) λ at.
      after_modify _ _ (write_run-IsNamed ws key project i _) (
        quiet_bind _ _ (record_event-Untouched env _ _) (record_event-KeepsKeys env _ _)
          λ _. ends_pure _ (λ w p. (refl, p)))

  pub submit-IsNamed :
      (env : Env) (ports : Ports) (run : Run) (s : RunSnapshot) (version : ProjectVersion)
      → Ensures
          (IsNamed ws key project i)
          (submit env ports run s version ws)
          (λ sent w. (sent.id ≡ run.id) × IsNamed ws key project i w)
  unfolding submit
  submit-IsNamed env ports run s version =
      quiet_bind _ _ (try_submit-Untouched ports run s version ws)
        (try_submit-KeepsKeys ports run s version ws) λ result. submitted-IsNamed env run result
