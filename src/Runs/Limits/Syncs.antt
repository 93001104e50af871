-- ===== src/Runs/Limits/Syncs.antt =====
-- `sync_run` and `sync_all` (application/run_lifecycle.py) and the limits of unfinished runs.
use workspace.Base.{
  ◌≡◌, refl, sym, subst, Bool, true, false, Option, none, some, List, [], ◌∷◌, Text, Result, ok,
  err, arith, Ensures, Ensures-bind, after_gets, skip_gets, keep_pure, ℕ, pure, after_modify,
  weaken, ends_pure, inl, inr, Bool-cases,
}
use workspace.Domain.Errors.{ObjectId, DomainError}
use workspace.Domain.Enums.{RunStatus, SchedulerState, is_terminal, status_is}
use workspace.Domain.Models.{Time, SchedulerJobState, ArtifactCollectionRule, Run}
use workspace.Domain.Snapshot.{RunSnapshot}
use workspace.Store.{Env, World, now}
use workspace.Store.Runs.{
  run_get, run_list_unfinished, claim_terminal, run_update, is_unfinished, write_run,
}
use workspace.Runs.Ports.{Ports, ArtifactContent}
use workspace.Runs.Lifecycle.{
  rule_collected, collect_rules, collect_found, collect_artifacts, started, reported, finish_time,
  told_of_end, finish, claim, finish_claimed, settle, after_report, sync_job, sync_found, sync_run,
  counted, sync_each, sync_all,
}
use workspace.Runs.Untouched.{
  artifact_add-Untouched, SameTables, Untouched, untouched_bind, pure-Untouched, new_id-Untouched,
  now-Untouched, record_run_activity-Untouched, told_of_run-Untouched, record_event-Untouched,
  call-Untouched,
}
use workspace.Runs.Limits.{
  WithinLimits, WithinLimits-same, write_run-WithinLimits, claim_terminal-WithinLimits,
  run_get-Stored,
}
use workspace.Runs.Limits.Launch.{StoredWithin, StoredWithin-same, KeepsLimits}

module _ (env : Env) (ports : Ports) where
  -- A run that is not unfinished, in a store within the limits.
  After : Run → World → Type 0
  After run w = WithinLimits w × (is_unfinished run.status ≡ false)

  After-same : (run : Run) (w w' : World) → SameTables w w' → After run w → After run w'
  unfolding After
  After-same run w w' s p = (WithinLimits-same w w' s p.0, p.1)

  rule_collected-After :
      (run : Run) (rule : ArtifactCollectionRule) (i : ObjectId) (o : Option ArtifactContent)
      → Ensures (After run) (rule_collected env ports run rule i o) After
  unfolding rule_collected After
  rule_collected-After run rule i none =
      untouched_bind _ (After-same run) _ _ (record_event-Untouched env _ _) λ _.
        ends_pure _
          (λ w p. (p.0, elim (Bool-cases rule.optional) [ inl o ↦ rw o (p.1) | inr o ↦ rw o refl ]))
  rule_collected-After run rule i (some content) =
      untouched_bind _ (After-same run) _ _ (now-Untouched env) λ at.
        untouched_bind _ (After-same run) _ _ (artifact_add-Untouched _) λ _.
          untouched_bind _ (After-same run) _ _ (record_event-Untouched env _ _)
            λ _. ends_pure _ (λ w p. p)

  collect_rules-After :
      (d : Text) (rules : List ArtifactCollectionRule) (run : Run)
      → Ensures (After run) (collect_rules env ports d rules run) After
  unfolding collect_rules
  collect_rules-After d [] run = ends_pure _ (λ w p. p)
  collect_rules-After d (rule ∷ rules) run =
      untouched_bind _ (After-same run) _ _ (new_id-Untouched env) λ i.
        untouched_bind _ (After-same run) _ _ (call-Untouched _) λ content.
          Ensures-bind After _ _ (rule_collected-After run rule i content)
            λ changed. collect_rules-After d rules changed

  collect_found-After :
      (run : Run) (o : Option RunSnapshot)
      → Ensures (After run) (collect_found env ports run o) After
  unfolding collect_found
  collect_found-After run none = ends_pure _ (λ w p. p)
  collect_found-After run (some s) = collect_rules-After s.working_directory s.artifact_rules run

  collect_artifacts-After :
      (run : Run) → Ensures (After run) (collect_artifacts env ports run) After
  unfolding collect_artifacts
  collect_artifacts-After run = skip_gets _ _ λ found. collect_found-After run found

  pub told_of_end-Untouched : (run : Run) → Untouched (told_of_end env ports run)
  unfolding told_of_end
  told_of_end-Untouched run = elim (Bool-cases (status_is run.status RunStatus.cancelled)) [
    | inl own ↦ rw own (pure-Untouched tt)
    | inr other ↦ rw other (told_of_run-Untouched env _ run _)
  ]

  finish-After : (run : Run) → Ensures (After run) (finish env ports run) (λ _. WithinLimits)
  unfolding finish run_update After
  finish-After run = Ensures-bind After _ _ (collect_artifacts-After run) λ ended.
      after_modify {P' = WithinLimits} _ _
        (λ w p. write_run-WithinLimits ended w (λ r found over. p.1) p.0)
        (untouched_bind _ WithinLimits-same _ _ (record_event-Untouched env _ _) λ _.
          untouched_bind _ WithinLimits-same _ _ (record_run_activity-Untouched env _ ended _) λ _.
            untouched_bind _ WithinLimits-same _ _ (told_of_end-Untouched ended) λ _. keep_pure _)

  finish_claimed-After :
      (previous : RunStatus) (run : Run) (won : Bool)
      → Ensures (After run) (finish_claimed env ports previous run won) (λ _. WithinLimits)
  unfolding finish_claimed After
  finish_claimed-After previous run false = ends_pure _ (λ w p. p.0)
  finish_claimed-After previous run true =
      Ensures-bind (λ _. WithinLimits) _ _ (finish-After run) λ ended. keep_pure _

  claim-After :
      (run : Run)
      → is_unfinished run.status ≡ false
      → Ensures WithinLimits (claim env ports run) (λ _. After run)
  unfolding claim After
  claim-After run over = record {
    at = λ w won w' p h.
        let e : (claim_terminal run w).1 ≡ w' = ground arith in
        (subst WithinLimits e (claim_terminal-WithinLimits run w over p), over);
  }

  -- A report changes the object at hand only; its id stays.
  Reports : Run → Option Run → World → Type 0
  Reports run o w = StoredWithin run w × ((r : Run) → o ≡ some r → r.id ≡ run.id)

  started-Reports :
      (run r : Run) (state : SchedulerJobState) (t : Option Time)
      → r.id ≡ run.id
      → Ensures
          (StoredWithin run)
          (started env ports r state t)
          (λ b w. StoredWithin run w × (b.id ≡ run.id))
  unfolding started
  started-Reports run r state (some t) e = ends_pure _ (λ w p. (p, e))
  started-Reports run r state none e =
      untouched_bind _ (StoredWithin-same run) _ _ (start_time state.started_at) λ at.
        untouched_bind _ (StoredWithin-same run) _ _ (record_event-Untouched env _ _)
          λ _. ends_pure _ (λ w p. (p, e))
    where
      start_time : (o : Option Time) → Untouched (elim o [ some t ↦ pure t | none ↦ now env ])
      start_time none = now-Untouched env
      start_time (some t) = pure-Untouched t

  reported-Reports :
      (run : Run) (state : SchedulerJobState) (s : SchedulerState)
      → Ensures (StoredWithin run) (reported env ports run state s) (Reports run)
  unfolding reported Reports
  reported-Reports run state SchedulerState.pending = ends_pure _ (λ w p. (p, λ r e. ground arith))
  reported-Reports run state SchedulerState.running =
      Ensures-bind _ _ _ (started-Reports run _ state run.started_at refl)
        λ begun. ends_pure _ (λ w p. (p.0, λ r e. let k = p.1 in ground arith))
  reported-Reports run state SchedulerState.completed =
      ends_pure _ (λ w p. (p, λ r e. ground arith))
  reported-Reports run state SchedulerState.failed = ends_pure _ (λ w p. (p, λ r e. ground arith))
  reported-Reports run state SchedulerState.cancelled =
      ends_pure _ (λ w p. (p, λ r e. ground arith))
  reported-Reports run state SchedulerState.unknown = ends_pure _ (λ w p. (p, λ r e. absurd (cc)))

  pub finish_time-Untouched : (o : Option Time) → Untouched (finish_time env ports o)
  unfolding finish_time
  finish_time-Untouched none = now-Untouched env
  finish_time-Untouched (some t) = pure-Untouched t

  -- Writing a run whose stored row was unfinished.
  rewrite_stored :
      (run r : Run) (w : World)
      → r.id ≡ run.id
      → is_terminal run.status ≡ false
      → StoredWithin run w
      → WithinLimits (write_run r w)
  rewrite_stored run r w same open_run p =
      write_run-WithinLimits r w
        (λ row found over.
          let stored : run_get r.id w ≡ some run =
            subst (λ i. run_get i w ≡ some run) (sym same) p.1 in
          absurd (ground arith))
        p.0

  settle-KeepsLimits :
      (run r : Run) (previous : RunStatus) (state : SchedulerJobState) (ended : Bool)
      → ended ≡ is_terminal r.status
      → r.id ≡ run.id
      → is_terminal run.status ≡ false
      → Ensures (StoredWithin run) (settle env ports previous r state ended) (λ _. WithinLimits)
  unfolding settle run_update
  settle-KeepsLimits run r previous state true over same open_run =
      weaken (λ w p. p.0)
        (untouched_bind _ WithinLimits-same _ _ (finish_time-Untouched _) λ at.
          Ensures-bind _ _ _ (claim-After _ (ground arith))
            λ won. finish_claimed-After previous _ won)
  settle-KeepsLimits run r previous state false over same open_run =
      after_modify {P' = WithinLimits} _ _ (λ w p. rewrite_stored run r w same open_run p)
        (keep_pure _)

  after_report-KeepsLimits :
      (run : Run) (state : SchedulerJobState) (o : Option Run)
      → is_terminal run.status ≡ false
      → Ensures (Reports run o) (after_report env ports run state o) (λ _. WithinLimits)
  unfolding after_report run_update Reports
  after_report-KeepsLimits run state none open_run =
      weaken (λ w p. p.0)
        (untouched_bind _ (StoredWithin-same run) _ _ (record_event-Untouched env _ _) λ _.
          after_modify {P' = WithinLimits} _ _ (λ w p. rewrite_stored run run w refl open_run p)
            (keep_pure _))
  after_report-KeepsLimits run state (some r) open_run = record {
    at = λ w b w' p h.
        (settle-KeepsLimits run r run.status state (is_terminal r.status) refl (p.1 r refl)
            open_run).at
          w b w' p.0 h;
  }

  sync_job-KeepsLimits :
      (run : Run) (job : Option Text)
      → is_terminal run.status ≡ false
      → Ensures (StoredWithin run) (sync_job env ports run job) (λ _. WithinLimits)
  unfolding sync_job
  sync_job-KeepsLimits run none open_run = ends_pure _ (λ w p. p.0)
  sync_job-KeepsLimits run (some job) open_run =
      untouched_bind _ (StoredWithin-same run) _ _ (call-Untouched _) λ state.
        Ensures-bind (Reports run) _ _ (reported-Reports run state state.state)
          λ r. after_report-KeepsLimits run state r open_run

  sync_found-KeepsLimits :
      (i : ObjectId) (o : Option Run)
      → Ensures
          (λ w. WithinLimits w × (run_get i w ≡ o))
          (sync_found env ports o)
          (λ _. WithinLimits)
  unfolding sync_found
  sync_found-KeepsLimits i none = ends_pure _ (λ w p. p.0)
  sync_found-KeepsLimits i (some run) = elim (Bool-cases (is_terminal run.status)) [
    | inl over ↦ rw over (ends_pure false (λ w p. p.0))
    | inr open_run ↦
        rw open_run
          (weaken (λ w p. (p.0, run_get-Stored i run w p.1)) (sync_job-KeepsLimits run _ open_run))
  ]

  pub sync_run-KeepsLimits : (i : ObjectId) → KeepsLimits (sync_run env ports i)
  unfolding sync_run
  sync_run-KeepsLimits i = after_gets _ _ λ found. sync_found-KeepsLimits i found

  sync_each-WithinLimits :
      (runs : List Run) (n : ℕ) (w : World)
      → WithinLimits w
      → WithinLimits ((sync_each env ports runs (n, w)).1)
  unfolding sync_each counted
  sync_each-WithinLimits [] n w inv = inv
  sync_each-WithinLimits (run ∷ runs) n w inv =
      after (λ n' v k. sync_each-WithinLimits runs n' v k) (sync_run env ports run.id w) refl
    where
      after :
          (rest : (n' : ℕ) (v : World)
            → WithinLimits v
            → WithinLimits ((sync_each env ports runs (n', v)).1))
          (r : Result DomainError (Bool × World))
          → sync_run env ports run.id w ≡ r
          → WithinLimits ((sync_each env ports runs (counted env ports n w r)).1)
      after rest (ok (true, w')) e = rest _ w' ((sync_run-KeepsLimits run.id).at w true w' inv e)
      after rest (ok (false, w')) e = rest _ w' ((sync_run-KeepsLimits run.id).at w false w' inv e)
      after rest (err x) e = rest n w inv

  pub sync_all-WithinLimits : (w : World) → WithinLimits w → WithinLimits ((sync_all env ports w).1)
  unfolding sync_all
  sync_all-WithinLimits w inv = sync_each-WithinLimits (run_list_unfinished w) 0 w inv
