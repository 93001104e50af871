-- ===== src/Runs/Ended/Syncs.antt =====
-- `sync_run` and `sync_all` (application/run_lifecycle.py) and the row of an ended run.
use workspace.Base.{
  ℕ, ◌≡◌, refl, subst, Bool, true, false, Option, none, some, List, [], ◌∷◌, Text, Result, ok, err,
  arith, pure, Ensures, Ensures-bind, after_gets, skip_gets, after_modify, keep_pure, weaken,
  ends_pure, inl, inr, Bool-cases,
}
use workspace.Domain.Errors.{ObjectId, DomainError}
use workspace.Domain.Enums.{RunStatus, SchedulerState, is_terminal}
use workspace.Domain.Models.{Time, Run, ArtifactCollectionRule, SchedulerJobState}
use workspace.Domain.Snapshot.{RunSnapshot}
use workspace.Store.{Env, World, now}
use workspace.Store.Runs.{run_get, run_update, claim_terminal, run_list_unfinished}
use workspace.Runs.Ports.{Ports, ArtifactContent}
use workspace.Runs.Lifecycle.{
  rule_collected, collect_rules, collect_found, collect_artifacts, started, reported, finish, claim,
  finish_claimed, settle, after_report, sync_job, sync_found, sync_run, counted, sync_each,
  sync_all,
}
use workspace.Runs.Untouched.{
  Untouched, untouched_bind, now-Untouched, pure-Untouched, new_id-Untouched, call-Untouched,
  artifact_add-Untouched, record_run_activity-Untouched, record_event-Untouched,
}
use workspace.Runs.Limits.Syncs.{told_of_end-Untouched, finish_time-Untouched}
use workspace.Runs.Ended.{
  IsRow, IsRow-same, Apart, Apart-same, write_run-IsRow, claim_terminal-IsRow, open_run-Apart,
}

module _ (i : ObjectId) (r : Run) (env : Env) (ports : Ports) where
  rule_collected-Apart :
      (run : Run) (rule : ArtifactCollectionRule) (j : ObjectId) (o : Option ArtifactContent)
      → Ensures (Apart i r run) (rule_collected env ports run rule j o) (Apart i r)
  unfolding rule_collected
  rule_collected-Apart run rule j none =
      untouched_bind _ (Apart-same i r run) _ _ (record_event-Untouched env _ _) λ _.
        ends_pure _ (λ w p.
          (p.0, elim (Bool-cases rule.optional) [ inl o ↦ rw o (p.1) | inr o ↦ rw o (p.1) ]))
  rule_collected-Apart run rule j (some content) =
      untouched_bind _ (Apart-same i r run) _ _ (now-Untouched env) λ at.
        untouched_bind _ (Apart-same i r run) _ _ (artifact_add-Untouched _) λ _.
          untouched_bind _ (Apart-same i r run) _ _ (record_event-Untouched env _ _)
            λ _. ends_pure _ (λ w p. p)

  collect_rules-Apart :
      (d : Text) (rules : List ArtifactCollectionRule) (run : Run)
      → Ensures (Apart i r run) (collect_rules env ports d rules run) (Apart i r)
  unfolding collect_rules
  collect_rules-Apart d [] run = ends_pure _ (λ w p. p)
  collect_rules-Apart d (rule ∷ rules) run =
      untouched_bind _ (Apart-same i r run) _ _ (new_id-Untouched env) λ j.
        untouched_bind _ (Apart-same i r run) _ _ (call-Untouched _) λ content.
          Ensures-bind (Apart i r) _ _ (rule_collected-Apart run rule j content)
            λ changed. collect_rules-Apart d rules changed

  collect_found-Apart :
      (run : Run) (o : Option RunSnapshot)
      → Ensures (Apart i r run) (collect_found env ports run o) (Apart i r)
  unfolding collect_found
  collect_found-Apart run none = ends_pure _ (λ w p. p)
  collect_found-Apart run (some s) = collect_rules-Apart s.working_directory s.artifact_rules run

  collect_artifacts-Apart :
      (run : Run) → Ensures (Apart i r run) (collect_artifacts env ports run) (Apart i r)
  unfolding collect_artifacts
  collect_artifacts-Apart run = skip_gets _ _ λ found. collect_found-Apart run found

  finish-Apart : (run : Run) → Ensures (Apart i r run) (finish env ports run) (λ _. IsRow i r)
  unfolding finish run_update
  finish-Apart run = Ensures-bind (Apart i r) _ _ (collect_artifacts-Apart run) λ ended.
      after_modify {P' = IsRow i r} _ _ (λ w p. write_run-IsRow i r ended w p)
        (untouched_bind _ (IsRow-same i r) _ _ (record_event-Untouched env _ _) λ _.
          untouched_bind _ (IsRow-same i r) _ _ (record_run_activity-Untouched env _ ended _) λ _.
            untouched_bind _ (IsRow-same i r) _ _ (told_of_end-Untouched env ports ended)
              λ _. keep_pure _)

  finish_claimed-Apart :
      (previous : RunStatus) (run : Run) (won : Bool)
      → Ensures (Apart i r run) (finish_claimed env ports previous run won) (λ _. IsRow i r)
  unfolding finish_claimed
  finish_claimed-Apart previous run false = ends_pure _ (λ w p. p.0)
  finish_claimed-Apart previous run true =
      Ensures-bind (λ _. IsRow i r) _ _ (finish-Apart run) λ ended. keep_pure _

  claim-Apart : (run : Run) → Ensures (Apart i r run) (claim env ports run) (λ _. Apart i r run)
  unfolding claim
  claim-Apart run = record {
    at = λ w won w' p h.
        let e : (claim_terminal run w).1 ≡ w' = ground arith in
        (subst (IsRow i r) e (claim_terminal-IsRow i r run w p), p.1);
  }

  started-Apart :
      (run : Run) (state : SchedulerJobState) (t : Option Time)
      → Ensures (Apart i r run) (started env ports run state t) (Apart i r)
  unfolding started
  started-Apart run state (some t) = ends_pure _ (λ w p. p)
  started-Apart run state none =
      untouched_bind _ (Apart-same i r run) _ _ (start_time state.started_at) λ at.
        untouched_bind _ (Apart-same i r run) _ _ (record_event-Untouched env _ _)
          λ _. ends_pure _ (λ w p. p)
    where
      start_time : (o : Option Time) → Untouched (elim o [ some t ↦ pure t | none ↦ now env ])
      start_time none = now-Untouched env
      start_time (some t) = pure-Untouched t

  -- What was reported is about the run at hand.
  AboutRun : Run → Option Run → World → Type 0
  AboutRun run none w = Apart i r run w
  AboutRun run (some b) w = Apart i r b w

  reported-AboutRun :
      (run : Run) (state : SchedulerJobState) (s : SchedulerState)
      → Ensures (Apart i r run) (reported env ports run state s) (AboutRun run)
  unfolding reported AboutRun
  reported-AboutRun run state SchedulerState.pending = ends_pure _ (λ w p. p)
  reported-AboutRun run state SchedulerState.running =
      Ensures-bind (Apart i r) _ _ (started-Apart _ state run.started_at)
        λ begun. ends_pure _ (λ w p. p)
  reported-AboutRun run state SchedulerState.completed = ends_pure _ (λ w p. p)
  reported-AboutRun run state SchedulerState.failed = ends_pure _ (λ w p. p)
  reported-AboutRun run state SchedulerState.cancelled = ends_pure _ (λ w p. p)
  reported-AboutRun run state SchedulerState.unknown = ends_pure _ (λ w p. p)

  settle-Apart :
      (run : Run) (previous : RunStatus) (state : SchedulerJobState) (ended : Bool)
      → Ensures (Apart i r run) (settle env ports previous run state ended) (λ _. IsRow i r)
  unfolding settle run_update
  settle-Apart run previous state true =
      untouched_bind _ (Apart-same i r run) _ _ (finish_time-Untouched env ports _)
        λ at. Ensures-bind _ _ _ (claim-Apart _) λ won. finish_claimed-Apart previous _ won
  settle-Apart run previous state false =
      after_modify {P' = IsRow i r} _ _ (λ w p. write_run-IsRow i r run w p) (keep_pure _)

  after_report-Apart :
      (run : Run) (state : SchedulerJobState) (o : Option Run)
      → Ensures (AboutRun run o) (after_report env ports run state o) (λ _. IsRow i r)
  unfolding after_report run_update AboutRun
  after_report-Apart run state none =
      untouched_bind _ (Apart-same i r run) _ _ (record_event-Untouched env _ _)
        λ _. after_modify {P' = IsRow i r} _ _ (λ w p. write_run-IsRow i r run w p) (keep_pure _)
  after_report-Apart run state (some b) = settle-Apart b run.status state (is_terminal b.status)

  sync_job-Apart :
      (run : Run) (job : Option Text)
      → Ensures (Apart i r run) (sync_job env ports run job) (λ _. IsRow i r)
  unfolding sync_job
  sync_job-Apart run none = ends_pure _ (λ w p. p.0)
  sync_job-Apart run (some job) =
      untouched_bind _ (Apart-same i r run) _ _ (call-Untouched _) λ state.
        Ensures-bind (AboutRun run) _ _ (reported-AboutRun run state state.state)
          λ o. after_report-Apart run state o

  module _ (over : is_terminal r.status ≡ true) where
    sync_found-KeepsRow :
        (j : ObjectId) (o : Option Run)
        → Ensures (λ w. IsRow i r w × (run_get j w ≡ o)) (sync_found env ports o) (λ _. IsRow i r)
    unfolding sync_found
    sync_found-KeepsRow j none = ends_pure _ (λ w p. p.0)
    sync_found-KeepsRow j (some run) = elim (Bool-cases (is_terminal run.status)) [
      | inl ended ↦ rw ended (ends_pure false (λ w p. p.0))
      | inr open_run ↦
          rw open_run (
            weaken (λ w p. open_run-Apart i j r run w p.0 over p.1 open_run) (sync_job-Apart run _))
    ]

    pub sync_run-KeepsRow :
        (j : ObjectId) → Ensures (IsRow i r) (sync_run env ports j) (λ _. IsRow i r)
    unfolding sync_run
    sync_run-KeepsRow j = after_gets _ _ λ found. sync_found-KeepsRow j found

    sync_each-IsRow :
        (runs : List Run) (n : ℕ) (w : World)
        → IsRow i r w
        → IsRow i r ((sync_each env ports runs (n, w)).1)
    unfolding sync_each counted
    sync_each-IsRow [] n w p = p
    sync_each-IsRow (run ∷ runs) n w p =
        after (λ n' v k. sync_each-IsRow runs n' v k) (sync_run env ports run.id w) refl
      where
        after :
            (rest : (n' : ℕ) (v : World)
              → IsRow i r v
              → IsRow i r ((sync_each env ports runs (n', v)).1))
            (o : Result DomainError (Bool × World))
            → sync_run env ports run.id w ≡ o
            → IsRow i r ((sync_each env ports runs (counted env ports n w o)).1)
        after rest (ok (true, w')) e = rest _ w' ((sync_run-KeepsRow run.id).at w true w' p e)
        after rest (ok (false, w')) e = rest _ w' ((sync_run-KeepsRow run.id).at w false w' p e)
        after rest (err x) e = rest n w p

    pub sync_all-IsRow : (w : World) → IsRow i r w → IsRow i r ((sync_all env ports w).1)
    unfolding sync_all
    sync_all-IsRow w p = sync_each-IsRow (run_list_unfinished w) 0 w p
