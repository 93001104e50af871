-- ===== src/Runs/Lifecycle.antt =====
-- RunLifecycleService (application/run_lifecycle.py): the scheduler's reports become the status of a
-- run, and the artifacts are collected once, by whoever claims the terminal status.
use workspace.Base.{
  ℕ, ℤ, pos, ◌+◌, eqb_ℤ, Bool, true, false, not, Option, none, some, List, [], ◌∷◌, ◌++◌, Text,
  text, is_empty, or_else, starts_with, reverse, if◌then◌else◌, Result, ok, err, ◌>>=◌, ◌>>◌, pure,
  gets,
}
use workspace.Domain.Errors.{ObjectId, DomainError}
use workspace.Domain.Enums.{
  RunStatus, RunEventType, ActivityAction, NotificationType, ArtifactStatus, SchedulerState,
  is_terminal, status_is,
}
use workspace.Domain.Models.{Time, Run, ArtifactCollectionRule, SchedulerJobState}
use workspace.Domain.Snapshot.{RunSnapshot, is_root_directory}
use workspace.Store.{Env, World, Op, new_id, now}
use workspace.Store.Runs.{
  run_get, run_update, claim_terminal, run_list_unfinished, snapshot_get, artifact_add,
}
use workspace.Runs.Ports.{Ports, ArtifactContent, call}
use workspace.Runs.Submit.{non_empty, record_event, record_run_activity, told_of_run}

-- `posixpath.join` of two parts
unfoldable pub join_path : Text → Text → Text
join_path a b =
    if starts_with b (text "/")
    then b
    else if is_empty a
    then b
    else if starts_with (reverse a) (text "/")
    then a ++ b
    else a ++ (text "/" ++ b)

-- `_join_working_directory`
unfoldable pub join_working_directory : Text → Text → Text
unfolding join_path
join_working_directory d path = if is_root_directory d then path else join_path d path

-- `(state.exit_code or 0) == 0`
abbrev pub exit_is_zero : Option ℤ → Bool
exit_is_zero none = true
exit_is_zero (some c) = eqb_ℤ c (pos 0)

-- `a or b` on instants
abbrev pub or_time : Option Time → Option Time → Option Time
or_time none b = b
or_time (some t) b = some t

module _ (env : Env) (ports : Ports) where
  -- A rule whose path is missing fails the run, unless it is optional.
  unfoldable pub rule_collected :
      Run → ArtifactCollectionRule → ObjectId → Option ArtifactContent → Op Run
  unfolding record_event
  rule_collected run rule i none = do
    record_event env run.id RunEventType.artifact_missing
    pure (
        if rule.optional then run else record run {
          status = RunStatus.failed;
          failure_reason = text "必需的 Artifact " ++ (rule.path ++ text " 未生成");
        })
  rule_collected run rule i (some content) = do
    at ← now env
    artifact_add (record {
      id = i;
      run_id = run.id;
      project_id = run.project_id;
      workspace_id = run.workspace_id;
      name = or_else rule.name rule.path;
      source_path = rule.path;
      size = content.size;
      file_count = content.file_count;
      content_hash = content.content_hash;
      status = ArtifactStatus.available;
      created_at = at;
    })
    record_event env run.id RunEventType.artifact_collected
    pure run

  unfoldable pub collect_rules : Text → List ArtifactCollectionRule → Run → Op Run
  unfolding rule_collected join_working_directory call
  collect_rules d [] run = pure run
  collect_rules d (rule ∷ rules) run = do
    i ← new_id env
    content ← call (λ n. ports.collect_artifact n run.id i (join_working_directory d rule.path))
    changed ← rule_collected run rule i content
    collect_rules d rules changed

  unfoldable pub collect_found : Run → Option RunSnapshot → Op Run
  unfolding collect_rules
  collect_found run none = pure run
  collect_found run (some s) = collect_rules s.working_directory s.artifact_rules run

  -- `_collect_artifacts`
  unfoldable pub collect_artifacts : Run → Op Run
  unfolding collect_found
  collect_artifacts run = do found ← gets (snapshot_get run.snapshot_id); collect_found run found

  -- `if run.started_at is None: …`
  unfoldable pub started : Run → SchedulerJobState → Option Time → Op Run
  unfolding record_event
  started run state (some t) = pure run
  started run state none = do
    at ← elim state.started_at [ some t ↦ pure t | none ↦ now env ]
    record_event env run.id RunEventType.started
    pure (record run { started_at = some at })

  -- The `match`; none for `UNKNOWN`, which returns.
  unfoldable pub reported : Run → SchedulerJobState → SchedulerState → Op (Option Run)
  unfolding started
  reported run state SchedulerState.pending = pure (some (record run { status = RunStatus.queued }))
  reported run state SchedulerState.running = do
    begun ← started (record run { status = RunStatus.running }) state run.started_at
    pure (some begun)
  reported run state SchedulerState.completed = pure (
      some (record run {
        status = if exit_is_zero state.exit_code then RunStatus.succeeded else RunStatus.failed;
        exit_code = state.exit_code;
      }))
  reported run state SchedulerState.failed = pure (
      some (record run {
        status = RunStatus.failed;
        exit_code = state.exit_code;
        failure_reason = or_else state.reason (text "任务执行失败");
      }))
  reported run state SchedulerState.cancelled = pure (
      some (record run {
        status = RunStatus.cancelled;
        failure_reason = or_else state.reason (text "任务已被取消");
      }))
  reported run state SchedulerState.unknown = pure none

  unfoldable pub finish_time : Option Time → Op Time
  finish_time (some t) = pure t
  finish_time none = now env

  -- `if run.status is not RunStatus.CANCELLED: …`
  unfoldable pub told_of_end : Run → Op (Unit {0})
  unfolding told_of_run
  told_of_end run =
      if status_is run.status RunStatus.cancelled
      then pure tt
      else told_of_run env
          (if status_is run.status RunStatus.succeeded
            then NotificationType.run_succeeded
            else NotificationType.run_failed)
          run run.failure_reason

  -- What the one who claimed the terminal status does.
  unfoldable pub finish : Run → Op Run
  unfolding collect_artifacts record_event record_run_activity told_of_end
  finish run = do
    ended ← collect_artifacts run
    run_update ended
    record_event env ended.id RunEventType.finished
    record_run_activity env ended.created_by ended ActivityAction.run_finished
    told_of_end ended
    pure ended

  unfoldable pub claim : Run → Op Bool
  claim run w = ok (claim_terminal run w)

  -- A claim that fails ends the call.
  unfoldable pub finish_claimed : RunStatus → Run → Bool → Op Bool
  unfolding finish
  finish_claimed previous run false = pure false
  finish_claimed previous run true = do
    ended ← finish run
    pure (not (status_is ended.status previous))

  -- `if run.status.is_terminal: … else: …`
  unfoldable pub settle : RunStatus → Run → SchedulerJobState → Bool → Op Bool
  unfolding claim finish_claimed finish_time
  settle previous run state true = do
    at ← finish_time state.finished_at
    let ended = record run {
      started_at = or_time run.started_at state.started_at;
      finished_at = some at;
    }
    won ← claim ended
    finish_claimed previous ended won
  settle previous run state false = do run_update run; pure (not (status_is run.status previous))

  unfoldable pub after_report : Run → SchedulerJobState → Option Run → Op Bool
  unfolding settle record_event
  after_report run state none = do
    record_event env run.id RunEventType.error
    run_update run
    pure false
  after_report run state (some r) = settle run.status r state (is_terminal r.status)

  unfoldable pub sync_job : Run → Option Text → Op Bool
  unfolding reported after_report call
  sync_job run none = pure false
  sync_job run (some job) = do
    state ← call (λ n. ports.poll n job)
    r ← reported run state state.state
    after_report run state r

  unfoldable pub sync_found : Option Run → Op Bool
  unfolding sync_job
  sync_found none = pure false
  sync_found (some run) =
      if is_terminal run.status then pure false else sync_job run (non_empty run.scheduler_job_id)

  unfoldable pub sync_run : ObjectId → Op Bool
  unfolding sync_found
  sync_run i = do found ← gets (run_get i); sync_found found

  -- One run of the batch, in its SAVEPOINT; an exception is logged and skipped.
  unfoldable pub counted : ℕ → World → Result DomainError (Bool × World) → ℕ × World
  counted n w (ok (true, w')) = (n + 1, w')
  counted n w (ok (false, w')) = (n, w')
  counted n w (err e) = (n, w)

  unfoldable pub sync_each : List Run → ℕ × World → ℕ × World
  unfolding counted sync_run
  sync_each [] done = done
  sync_each (run ∷ runs) (n, w) = sync_each runs (counted n w (sync_run run.id w))

  -- `sync_all` never fails.
  unfoldable pub sync_all : World → ℕ × World
  unfolding sync_each
  sync_all w = sync_each (run_list_unfinished w) (0, w)
