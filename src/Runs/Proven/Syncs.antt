-- ===== src/Runs/Proven/Syncs.antt =====
-- `sync_run` and `sync_all` (application/run_lifecycle.py) and the reports behind succeeded runs.
use workspace.Base.{
  ℕ, ◌≡◌, refl, subst, Bool, true, false, Option, none, some, List, [], ◌∷◌, Text, Result, ok, err,
  arith, ◌>>=◌, pure, Ensures, Ensures-bind, after_gets, skip_gets, after_modify, keep_pure, weaken,
  ends_pure, inl, inr, Bool-cases,
}
use workspace.Domain.Errors.{ObjectId, DomainError}
use workspace.Domain.Enums.{RunStatus, SchedulerState, is_terminal}
use workspace.Domain.Models.{Time, Run, ArtifactCollectionRule, SchedulerJobState}
use workspace.Domain.Snapshot.{RunSnapshot}
use workspace.Store.{Env, World, Op, now}
use workspace.Store.Runs.{run_get, run_update, claim_terminal, run_list_unfinished}
use workspace.Runs.Ports.{call, Ports, ArtifactContent}
use workspace.Runs.Lifecycle.{
  rule_collected, collect_rules, collect_found, collect_artifacts, started, reported, finish, claim,
  finish_claimed, settle, after_report, sync_job, sync_found, sync_run, counted, sync_each,
  sync_all,
}
use workspace.Runs.Untouched.{
  SameTables, Untouched, untouched_bind, now-Untouched, pure-Untouched, new_id-Untouched,
  call-Untouched, artifact_add-Untouched, record_run_activity-Untouched, record_event-Untouched,
}
use workspace.Runs.Limits.Syncs.{told_of_end-Untouched, finish_time-Untouched}
use workspace.Runs.Submit.{non_empty}
use workspace.Runs.Limits.{Stored, Stored-same, run_get-Stored}
use workspace.Runs.Proven.{
  Completed, SuccessesReported, SuccessesReported-same, write_run-SuccessesReported,
  claim_terminal-SuccessesReported,
}

module _ (env : Env) (ports : Ports) where
  -- The run at hand is no success, or one that was reported.
  record Fair (run : Run) (w : World) : Type 0 where
    inv : SuccessesReported ports w
    fair : run.status ≡ RunStatus.succeeded → Completed ports run

  Fair-same : (run : Run) (w w' : World) → SameTables w w' → Fair run w → Fair run w'
  Fair-same run w w' s p = record { inv = SuccessesReported-same ports w w' s p.inv; fair = p.fair }

  Reported-same :
      (w w' : World) → SameTables w w' → SuccessesReported ports w → SuccessesReported ports w'
  Reported-same = SuccessesReported-same ports

  rule_collected-Fair :
      (run : Run) (rule : ArtifactCollectionRule) (j : ObjectId) (o : Option ArtifactContent)
      → Ensures (Fair run) (rule_collected env ports run rule j o) Fair
  unfolding rule_collected
  rule_collected-Fair run rule j none =
      untouched_bind _ (Fair-same run) _ _ (record_event-Untouched env _ _) λ _.
        elim (Bool-cases rule.optional) [
          | inl o ↦ rw o (ends_pure run (λ w p. p))
          | inr o ↦ rw o (ends_pure _ (λ w p. record { inv = p.inv; fair = λ e. absurd (cc) }))
        ]
  rule_collected-Fair run rule j (some content) =
      untouched_bind _ (Fair-same run) _ _ (now-Untouched env) λ at.
        untouched_bind _ (Fair-same run) _ _ (artifact_add-Untouched _) λ _.
          untouched_bind _ (Fair-same run) _ _ (record_event-Untouched env _ _)
            λ _. ends_pure _ (λ w p. p)

  collect_rules-Fair :
      (d : Text) (rules : List ArtifactCollectionRule) (run : Run)
      → Ensures (Fair run) (collect_rules env ports d rules run) Fair
  unfolding collect_rules
  collect_rules-Fair d [] run = ends_pure _ (λ w p. p)
  collect_rules-Fair d (rule ∷ rules) run =
      untouched_bind _ (Fair-same run) _ _ (new_id-Untouched env) λ j.
        untouched_bind _ (Fair-same run) _ _ (call-Untouched _) λ content.
          Ensures-bind Fair _ _ (rule_collected-Fair run rule j content)
            λ changed. collect_rules-Fair d rules changed

  collect_found-Fair :
      (run : Run) (o : Option RunSnapshot) → Ensures (Fair run) (collect_found env ports run o) Fair
  unfolding collect_found
  collect_found-Fair run none = ends_pure _ (λ w p. p)
  collect_found-Fair run (some s) = collect_rules-Fair s.working_directory s.artifact_rules run

  collect_artifacts-Fair : (run : Run) → Ensures (Fair run) (collect_artifacts env ports run) Fair
  unfolding collect_artifacts
  collect_artifacts-Fair run = skip_gets _ _ λ found. collect_found-Fair run found

  finish-Fair :
      (run : Run) → Ensures (Fair run) (finish env ports run) (λ _. SuccessesReported ports)
  unfolding finish run_update
  finish-Fair run = Ensures-bind Fair _ _ (collect_artifacts-Fair run) λ ended.
      after_modify {P' = SuccessesReported ports} _ _
        (λ w p. write_run-SuccessesReported ports ended w p.fair p.inv)
        (untouched_bind _ Reported-same _ _ (record_event-Untouched env _ _) λ _.
          untouched_bind _ Reported-same _ _ (record_run_activity-Untouched env _ ended _) λ _.
            untouched_bind _ Reported-same _ _ (told_of_end-Untouched env ports ended)
              λ _. keep_pure _)

  finish_claimed-Fair :
      (previous : RunStatus) (run : Run) (won : Bool)
      → Ensures
          (Fair run)
          (finish_claimed env ports previous run won)
          (λ _. SuccessesReported ports)
  unfolding finish_claimed
  finish_claimed-Fair previous run false = ends_pure _ (λ w p. p.inv)
  finish_claimed-Fair previous run true =
      Ensures-bind (λ _. SuccessesReported ports) _ _ (finish-Fair run) λ ended. keep_pure _

  -- The run at hand is a version of the stored one.
  record Version (run new : Run) (w : World) : Type 0 where
    inv : SuccessesReported ports w
    stored : Stored run w
    same_id : new.id ≡ run.id
    same_job : new.scheduler_job_id ≡ run.scheduler_job_id
    fair : new.status ≡ RunStatus.succeeded → Completed ports new

  Version-same :
      (run new : Run) (w w' : World) → SameTables w w' → Version run new w → Version run new w'
  Version-same run new w w' s p = record {
    inv = SuccessesReported-same ports w w' s p.inv;
    stored = Stored-same w w' s run p.stored;
    same_id = p.same_id;
    same_job = p.same_job;
    fair = p.fair;
  }

  claim-Version : (run new : Run) → Ensures (Version run new) (claim env ports new) (λ _. Fair new)
  unfolding claim
  claim-Version run new = record {
    at = λ w won w' p h.
        let e : (claim_terminal new w).1 ≡ w' = ground arith in
        record {
          inv = subst (SuccessesReported ports) e (
              claim_terminal-SuccessesReported ports run new w p.stored p.same_id p.same_job p.fair
                p.inv);
          fair = p.fair;
        };
  }

  -- A stored run that is no success, and its job.
  record Watched (run : Run) (job : Text) (w : World) : Type 0 where
    inv : SuccessesReported ports w
    stored : Stored run w
    of_run : run.scheduler_job_id ≡ some job
    open_run : is_terminal run.status ≡ false

  Watched-same :
      (run : Run) (job : Text) (w w' : World)
      → SameTables w w'
      → Watched run job w
      → Watched run job w'
  Watched-same run job w w' s p = record {
    inv = SuccessesReported-same ports w w' s p.inv;
    stored = Stored-same w w' s run p.stored;
    of_run = p.of_run;
    open_run = p.open_run;
  }

  -- A version of the run that is no success.
  plain :
      (run new : Run) (job : Text) (w : World)
      → new.id ≡ run.id
      → new.scheduler_job_id ≡ run.scheduler_job_id
      → (new.status ≡ RunStatus.succeeded → Completed ports new)
      → Watched run job w
      → Version run new w
  plain run new job w same_id same_job fair p = record {
    inv = p.inv;
    stored = p.stored;
    same_id = same_id;
    same_job = same_job;
    fair = fair;
  }

  started-Version :
      (run : Run) (job : Text) (state : SchedulerJobState) (t : Option Time)
      → Ensures
          (Watched run job)
          (started env ports (record run { status = RunStatus.running }) state t)
          (Version run)
  unfolding started
  started-Version run job state (some t) =
      ends_pure _ (λ w p. plain run _ job w refl refl (λ e. absurd (cc)) p)
  started-Version run job state none =
      untouched_bind _ (Watched-same run job) _ _ (start_time state.started_at) λ at.
        untouched_bind _ (Watched-same run job) _ _ (record_event-Untouched env _ _)
          λ _. ends_pure _ (λ w p. plain run _ job w refl refl (λ e. absurd (cc)) p)
    where
      start_time : (o : Option Time) → Untouched (elim o [ some t ↦ pure t | none ↦ now env ])
      start_time none = now-Untouched env
      start_time (some t) = pure-Untouched t

  -- Of what was reported.
  ReportedVersion : Run → Option Run → World → Type 0
  ReportedVersion run none w = Version run run w
  ReportedVersion run (some new) w = Version run new w

  reported-Version :
      (run : Run) (job : Text) (n : ℕ) (state : SchedulerJobState) (s : SchedulerState)
      → ports.poll n job ≡ ok state
      → state.state ≡ s
      → run.scheduler_job_id ≡ some job
      → Ensures (Watched run job) (reported env ports run state s) (ReportedVersion run)
  unfolding reported ReportedVersion
  reported-Version run job n state SchedulerState.pending polled is of_run =
      ends_pure _ (λ w p. plain run _ job w refl refl (λ e. absurd (cc)) p)
  reported-Version run job n state SchedulerState.running polled is of_run =
      Ensures-bind (Version run) _ _ (started-Version run job state run.started_at)
        λ begun. ends_pure _ (λ w p. p)
  reported-Version run job n state SchedulerState.completed polled is of_run = ends_pure _ (λ w p.
      plain run _ job w refl refl
        (λ e. record {
          job = job;
          call_number = n;
          state = state;
          of_run = of_run;
          polled = polled;
          completed = is;
          exit_zero = ground arith;
        })
        p)
  reported-Version run job n state SchedulerState.failed polled is of_run =
      ends_pure _ (λ w p. plain run _ job w refl refl (λ e. absurd (cc)) p)
  reported-Version run job n state SchedulerState.cancelled polled is of_run =
      ends_pure _ (λ w p. plain run _ job w refl refl (λ e. absurd (cc)) p)
  reported-Version run job n state SchedulerState.unknown polled is of_run =
      ends_pure _
        (λ w p. plain run run job w refl refl (λ e. let o = p.open_run in absurd (ground arith)) p)

  settle-Version :
      (run new : Run) (previous : RunStatus) (state : SchedulerJobState) (ended : Bool)
      → Ensures
          (Version run new)
          (settle env ports previous new state ended)
          (λ _. SuccessesReported ports)
  unfolding settle run_update
  settle-Version run new previous state true =
      untouched_bind _ (Version-same run new) _ _ (finish_time-Untouched env ports _) λ at.
        Ensures-bind _ _ _
          (weaken
            (λ w p. record {
              inv = p.inv;
              stored = p.stored;
              same_id = p.same_id;
              same_job = p.same_job;
              fair = λ e.
                  let c = p.fair e in
                  record {
                    job = c.job;
                    call_number = c.call_number;
                    state = c.state;
                    of_run = c.of_run;
                    polled = c.polled;
                    completed = c.completed;
                    exit_zero = c.exit_zero;
                  };
            })
            (claim-Version run _))
          λ won. finish_claimed-Fair previous _ won
  settle-Version run new previous state false =
      after_modify {P' = SuccessesReported ports} _ _
        (λ w p. write_run-SuccessesReported ports new w p.fair p.inv) (keep_pure _)

  after_report-Version :
      (run : Run) (state : SchedulerJobState) (o : Option Run)
      → Ensures
          (ReportedVersion run o)
          (after_report env ports run state o)
          (λ _. SuccessesReported ports)
  unfolding after_report run_update ReportedVersion
  after_report-Version run state none =
      untouched_bind _ (Version-same run run) _ _ (record_event-Untouched env _ _) λ _.
        after_modify {P' = SuccessesReported ports} _ _
          (λ w p. write_run-SuccessesReported ports run w p.fair p.inv) (keep_pure _)
  after_report-Version run state (some new) =
      settle-Version run new run.status state (is_terminal new.status)

  -- What a call answered is what the port answers.
  call_answered :
      {A : Type 0} {B : Type 0} (P : World → Type 0) {R : B → World → Type 0}
      (f : ℕ → Result Text A) (k : A → Op B)
      → ((w w' : World) → SameTables w w' → P w → P w')
      → ((n : ℕ) (a : A) → f n ≡ ok a → Ensures P (k a) R)
      → Ensures P (call f >>= k) R
  unfolding call ◌>>=◌
  call_answered {A} {B} P {R} f k same rest = record {
    at = λ w b w' p h. go w b w' p (f w.calls) refl h;
  }
    where
      go :
          (w : World) (b : B) (w' : World)
          → P w
          → (o : Result Text A) → f w.calls ≡ o
          → (call (λ _. o) >>= k) w ≡ ok (b, w')
          → R b w'
      go w b w' p (ok a) e h =
          (rest w.calls a e).at _ b w'
            (same w _ (record { runs = refl; entitlements = refl; projects = refl; plans = refl })
              p)
            h
      go w b w' p (err x) e h = absurd (cc)

  sync_job-Reported :
      (run : Run) (job : Option Text)
      → non_empty run.scheduler_job_id ≡ job
      → is_terminal run.status ≡ false
      → Ensures
          (λ w. SuccessesReported ports w × Stored run w)
          (sync_job env ports run job)
          (λ _. SuccessesReported ports)
  unfolding sync_job
  sync_job-Reported run none e open_run = ends_pure _ (λ w p. p.0)
  sync_job-Reported run (some job) e open_run =
      let of_run : run.scheduler_job_id ≡ some job = ground arith in
      weaken {P' = Watched run job}
        (λ w p. record { inv = p.0; stored = p.1; of_run = of_run; open_run = open_run })
        (call_answered (Watched run job) _ _ (Watched-same run job) λ n state polled.
          Ensures-bind (ReportedVersion run) _ _
            (reported-Version run job n state state.state polled refl of_run)
            λ o. after_report-Version run state o)

  sync_found-Reported :
      (j : ObjectId) (o : Option Run)
      → Ensures
          (λ w. SuccessesReported ports w × (run_get j w ≡ o))
          (sync_found env ports o)
          (λ _. SuccessesReported ports)
  unfolding sync_found
  sync_found-Reported j none = ends_pure _ (λ w p. p.0)
  sync_found-Reported j (some run) = elim (Bool-cases (is_terminal run.status)) [
    | inl ended ↦ rw ended (ends_pure false (λ w p. p.0))
    | inr open_run ↦
        rw open_run (
          weaken (λ w p. (p.0, run_get-Stored j run w p.1)) (sync_job-Reported run _ refl open_run))
  ]

  pub sync_run-Reported :
      (j : ObjectId)
      → Ensures (SuccessesReported ports) (sync_run env ports j) (λ _. SuccessesReported ports)
  unfolding sync_run
  sync_run-Reported j = after_gets _ _ λ found. sync_found-Reported j found

  sync_each-Reported :
      (runs : List Run) (n : ℕ) (w : World)
      → SuccessesReported ports w
      → SuccessesReported ports ((sync_each env ports runs (n, w)).1)
  unfolding sync_each counted
  sync_each-Reported [] n w p = p
  sync_each-Reported (run ∷ runs) n w p =
      after (λ n' v k. sync_each-Reported runs n' v k) (sync_run env ports run.id w) refl
    where
      after :
          (rest : (n' : ℕ) (v : World)
            → SuccessesReported ports v
            → SuccessesReported ports ((sync_each env ports runs (n', v)).1))
          (o : Result DomainError (Bool × World))
          → sync_run env ports run.id w ≡ o
          → SuccessesReported ports ((sync_each env ports runs (counted env ports n w o)).1)
      after rest (ok (true, w')) e = rest _ w' ((sync_run-Reported run.id).at w true w' p e)
      after rest (ok (false, w')) e = rest _ w' ((sync_run-Reported run.id).at w false w' p e)
      after rest (err x) e = rest n w p

  pub sync_all-Reported :
      (w : World) → SuccessesReported ports w → SuccessesReported ports ((sync_all env ports w).1)
  unfolding sync_all
  sync_all-Reported w p = sync_each-Reported (run_list_unfinished w) 0 w p
