-- ===== src/Runs/Proven.antt =====
-- GR-015 (application/run_lifecycle.py): the report of the scheduler behind a succeeded run.
pub mod Syncs
use workspace.Base.{
  ℕ, ◌==◌, ◌&&◌, ◌≡◌, ◌≢◌, ◌⊎◌, ◌∙◌, refl, sym, subst, Bool, true, false, Option, none, some, List,
  [], ◌∷◌, ◌++◌, Text, ok, arith, find?, any, update_first, find?-snoc, find?-passes, if◌then◌else◌,
  Bool-cases, Option-cases, inl, inr,
}
use workspace.Domain.Errors.{ObjectId}
use workspace.Domain.Enums.{RunStatus, SchedulerState, is_terminal}
use workspace.Domain.Models.{Run, SchedulerJobState}
use workspace.Store.{World, insert_row}
use workspace.Store.Runs.{
  run_get, run_add, write_run, rewrite_run, claimed, claim_terminal, is_unfinished,
}
use workspace.Runs.Ports.{Ports}
use workspace.Runs.Lifecycle.{exit_is_zero}
use workspace.Runs.Untouched.{SameTables}
use workspace.Runs.Limits.{Stored, Stored-same, run_get-Stored, run_add-Stored}
use workspace.Runs.Rows.{RowLaw}

-- The scheduler reported the run's job as completed, with no exit code or 0.
pub record Completed (ports : Ports) (run : Run) : Type 0 where
  pub job : Text
  pub call_number : ℕ
  pub state : SchedulerJobState
  pub of_run : run.scheduler_job_id ≡ some job
  pub polled : ports.poll call_number job ≡ ok state
  pub completed : state.state ≡ SchedulerState.completed
  pub exit_zero : exit_is_zero state.exit_code ≡ true

-- Every stored success is one that the scheduler reported.
pub record SuccessesReported (ports : Ports) (w : World) : Type 0 where
  pub reported :
      (j : ObjectId) (run : Run)
      → run_get j w ≡ some run
      → run.status ≡ RunStatus.succeeded
      → Completed ports run

-- A row that is found after an update was found before, or is the one written anew.
find?-update_inverts :
    {A : Type 0} (p q : A → Bool) (f : A → A) (xs : List A) (y : A)
    → ((x : A) → q (f x) ≡ q x)
    → find? q (update_first p f xs) ≡ some y
    → (find? q xs ≡ some y) ⊎ ((x : A) × (find? q xs ≡ some x) × (p x ≡ true) × (y ≡ f x))
find?-update_inverts p q f [] y same h = inl h
find?-update_inverts p q f (x ∷ xs) y same h = elim (Bool-cases (p x)) [
  | inl hit ↦ elim (Bool-cases (q x)) [
    | inl found ↦ let e = same x in inr (x, ground arith, hit, ground arith)
    | inr other ↦ let e = same x in inl (ground arith)
  ]
  | inr miss ↦ elim (Bool-cases (q x)) [
    | inl found ↦ inl (ground arith)
    | inr other ↦ let rest = find?-update_inverts p q f xs y same (ground arith) in ground arith
  ]
]

module _ (ports : Ports) where
  pub SuccessesReported-same :
      (w w' : World) → SameTables w w' → SuccessesReported ports w → SuccessesReported ports w'
  unfolding run_get
  SuccessesReported-same w w' s inv = record {
    reported = λ j run h e. inv.reported j run (rw (s.runs) at h) e;
  }

  -- Writing a run that is no success, or whose job was reported completed.
  pub write_run-SuccessesReported :
      (new : Run) (w : World)
      → (new.status ≡ RunStatus.succeeded → Completed ports new)
      → SuccessesReported ports w
      → SuccessesReported ports (write_run new w)
  unfolding write_run run_get
  write_run-SuccessesReported new w fair inv = record {
    reported = λ j run h e.
        elim (find?-update_inverts (λ (x : Run). x.id == new.id) (λ (x : Run). x.id == j)
          (rewrite_run new) w.runs run (λ x. refl) h) [
            | inl before ↦ inv.reported j run before e
            | inr (x, found, hit, is_new) ↦
                let status : run.status ≡ new.status = ground arith in
                let c = fair (sym status ∙ e) in
                record {
                  job = c.job;
                  call_number = c.call_number;
                  state = c.state;
                  of_run =
                      (let job : run.scheduler_job_id ≡ new.scheduler_job_id = ground arith in
                        job ∙ c.of_run);
                  polled = c.polled;
                  completed = c.completed;
                  exit_zero = c.exit_zero;
                }
          ];
  }

  -- Claiming a success that was reported for the job of the stored run.
  pub claim_terminal-SuccessesReported :
      (run new : Run) (w : World)
      → Stored run w
      → new.id ≡ run.id
      → new.scheduler_job_id ≡ run.scheduler_job_id
      → (new.status ≡ RunStatus.succeeded → Completed ports new)
      → SuccessesReported ports w
      → SuccessesReported ports ((claim_terminal new w).1)
  unfolding claim_terminal run_get
  claim_terminal-SuccessesReported run new w stored same_id same_job fair inv = record {
    reported = λ j row h e.
        elim (find?-update_inverts (λ (x : Run). (x.id == new.id) && is_unfinished x.status)
          (λ (x : Run). x.id == j) (claimed new) w.runs row (λ x. refl) h) [
            | inl before ↦ inv.reported j row before e
            | inr (x, found, hit, is_new) ↦
                let status : row.status ≡ new.status = ground arith in
                let c = fair (sym status ∙ e) in
                let passes = find?-passes (λ (x : Run). x.id == j) w.runs x found in
                let at_id : run.id ≡ j = ground arith in
                let found' : find? (λ (x : Run). x.id == j) w.runs ≡ some run =
                  subst (λ k. find? (λ (x : Run). x.id == k) w.runs ≡ some run) at_id stored in
                let is_run : x ≡ run = ground arith in
                record {
                  job = c.job;
                  call_number = c.call_number;
                  state = c.state;
                  of_run =
                      (let job : row.scheduler_job_id ≡ new.scheduler_job_id = ground arith in
                        job ∙ c.of_run);
                  polled = c.polled;
                  completed = c.completed;
                  exit_zero = c.exit_zero;
                }
          ];
  }

  run_add-SuccessesReported :
      (run : Run) (w w' : World)
      → run_add run w ≡ ok (tt, w')
      → run.status ≡ RunStatus.queued
      → SuccessesReported ports w
      → SuccessesReported ports w'
  unfolding run_get run_add
  run_add-SuccessesReported run w w' h q inv = record {
    reported = λ j row found e.
        let rows : w'.runs ≡ w.runs ++ run ∷ [] =
          elim (Bool-cases (any (λ (x : Run). x.id == run.id) w.runs)) [
            | inl taken ↦ absurd (ground arith)
            | inr free ↦ ground arith
          ] in
        let now = find?-snoc (λ (x : Run). x.id == j) w.runs run in
        elim (Option-cases (find? (λ (x : Run). x.id == j) w.runs)) [
          | inl absent ↦ absurd (ground arith)
          | inr (old, before) ↦ inv.reported j row (ground arith) e
        ];
  }

  pub SuccessesReported-RowLaw : RowLaw (SuccessesReported ports) (λ _. SuccessesReported ports)
  SuccessesReported-RowLaw = record {
    same = SuccessesReported-same;
    same_at = λ _. SuccessesReported-same;
    forgets = λ run w p. p;
    added = run_add-SuccessesReported;
    written = λ run new w same fair p. write_run-SuccessesReported new w (λ e. absurd (fair e)) p;
    opened = λ j run w p found open_run. p;
  }
