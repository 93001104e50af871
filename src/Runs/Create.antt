-- ===== src/Runs/Create.antt =====
-- RunService.create, rerun and cancel (application/run_service.py).
use workspace.Base.{
  true, false, Option, none, some, List, [], ◌∷◌, ◌++◌, Text, text, strip, or_else, decimal, ◌>>=◌,
  ◌>>◌, pure, raise, reads, gets, modify, raise_if, or_else_raise,
}
use workspace.Domain.Errors.{
  ObjectId, Kind, by_id, conflict_error, Conflict, preflight_rejected, Problem, other_exception,
}
use workspace.Domain.Enums.{RunStatus, RunEventType, ActivityAction, is_terminal}
use workspace.Domain.Capabilities.{Capability}
use workspace.Domain.Compute.{resolve_scheduler_configuration}
use workspace.Domain.Models.{Run, Project, ProjectVersion, Endpoint}
use workspace.Domain.Snapshot.{RunSnapshot, build_snapshot}
use workspace.Store.{Env, Op, new_id, now, or_missing}
use workspace.Store.Projects.{version_get, environment_version_get, plan_get}
use workspace.Store.Runs.{run_add, run_update, snapshot_add, snapshot_get}
use workspace.Access.{RunAccess, guard_project, guard_run}
use workspace.Runs.Ports.{Ports, call}
use workspace.Runs.Idempotency.{RunSubmission, replay_or_reserve, attach_idempotency}
use workspace.Runs.Preflight.{
  RunDraft, configuration_of, command_of, preflight, revalidate_snapshot,
}
use workspace.Runs.Submit.{non_empty, submit, record_event, record_run_activity}

-- `if problems: raise PreflightRejected(problems)`
abbrev pub reject_problems : List Problem → Op (Unit {0})
reject_problems [] = pure tt
reject_problems (p ∷ ps) = raise (preflight_rejected (p ∷ ps))

-- `assert x is not None`
abbrev pub assert_some : {A : Type 0} → Option A → Op A
assert_some = or_else_raise other_exception

-- `ProjectVersion.label`
abbrev pub version_label : ProjectVersion → Text
version_label v = text "v" ++ decimal v.sequence

module _ (env : Env) (ports : Ports) where
  -- What both ways to make a run end with: the run is stored before it is submitted.
  unfoldable pub launch :
      ObjectId → ObjectId → Option Text → RunSnapshot → Run → ProjectVersion → Op RunSubmission
  unfolding record_event record_run_activity submit
  launch user ws key s run version = do
    run_add run
    record_event env run.id RunEventType.created
    modify (attach_idempotency ws key run.id)
    sent ← submit env ports run s version ws
    record_run_activity env user sent ActivityAction.run_submitted
    pure (record { run = sent; created = true })

  -- The snapshot and the run of a new submission.
  unfoldable pub create_new :
      ObjectId → ObjectId → ObjectId → Project → RunDraft → Option Text → Op RunSubmission
  unfolding launch configuration_of preflight
  create_new user project ws p draft key = do
    configuration ← configuration_of project draft
    result ← preflight env user project draft
    reject_problems result.problems
    version ← assert_some result.project_version
    environment ← assert_some result.environment_version
    plan ← assert_some result.compute_plan
    request ← assert_some result.compute_request
    at ← now env
    i ← new_id env
    scheduler ← reads (λ _. resolve_scheduler_configuration plan request)
    s ← reads (λ _. build_snapshot (record {
      id = i;
      project_id = project;
      project_version_id = version.id;
      source_run_configuration_id = some configuration.id;
      working_directory = or_else draft.working_directory_override configuration.working_directory;
      command = command_of configuration draft;
      environment_version_id = environment.id;
      environment_image = environment.image;
      environment_setup_command = environment.setup_command;
      env_literals = result.resolved_env.literals;
      env_secret_refs = result.resolved_env.secret_refs;
      input_bindings = configuration.input_bindings;
      compute_plan_id = plan.id;
      compute_request = request;
      scheduler = scheduler;
      artifact_rules = configuration.artifact_rules;
      created_by = user;
      created_at = at;
    }))
    snapshot_add s
    j ← new_id env
    launch user ws key s
        (record {
          id = j;
          project_id = project;
          workspace_id = ws;
          snapshot_id = s.id;
          compute_plan_id = s.compute_plan_id;
          source_run_configuration_id = some configuration.id;
          source_run_id = none;
          name = or_else (strip draft.name) (p.name ++ (text " · " ++ version_label version));
          status = RunStatus.queued;
          scheduler_job_id = none;
          exit_code = none;
          failure_reason = [];
          created_by = user;
          created_at = at;
          submitted_at = none;
          started_at = none;
          finished_at = none;
        })
        version

  -- `if replayed is not None: return RunSubmission(run=replayed, created=False)`
  abbrev pub replayed_or : Option Run → Op RunSubmission → Op RunSubmission
  replayed_or none make = make
  replayed_or (some r) make = pure (record { run = r; created = false })

  unfoldable pub create : ObjectId → ObjectId → RunDraft → Option Text → Op RunSubmission
  unfolding create_new
  create user project draft key = do
    access ← reads (guard_project user project (some Capability.run_submit))
    replayed ← replay_or_reserve access.space.id key Endpoint.create_run (some project) none
    replayed_or replayed (create_new user project access.space.id access.project draft key)

  unfoldable pub rerun_new : ObjectId → RunAccess → Text → Option Text → Op RunSubmission
  unfolding launch revalidate_snapshot
  rerun_new user access name key = do
    found ← gets (snapshot_get access.run.snapshot_id)
    source ← or_missing Kind.run_snapshot (by_id access.run.snapshot_id) found
    problems ← revalidate_snapshot env source access.space.id
    reject_problems problems
    environment_found ← gets (environment_version_get source.environment_version_id)
    environment ← assert_some environment_found
    plan_found ← gets (plan_get source.compute_plan_id)
    plan ← assert_some plan_found
    version_found ← gets (version_get source.project_version_id)
    version ← assert_some version_found
    at ← now env
    i ← new_id env
    scheduler ← reads (λ _. resolve_scheduler_configuration plan source.compute_request)
    s ← reads (λ _. build_snapshot (record source {
      id = i;
      environment_version_id = environment.id;
      environment_image = environment.image;
      environment_setup_command = environment.setup_command;
      compute_plan_id = plan.id;
      scheduler = scheduler;
      created_by = user;
      created_at = at;
    }))
    snapshot_add s
    j ← new_id env
    launch user access.space.id key s
        (record {
          id = j;
          project_id = access.run.project_id;
          workspace_id = access.space.id;
          snapshot_id = s.id;
          compute_plan_id = s.compute_plan_id;
          source_run_configuration_id = source.source_run_configuration_id;
          source_run_id = some access.run.id;
          name = or_else (strip name) (access.run.name ++ text "（重跑）");
          status = RunStatus.queued;
          scheduler_job_id = none;
          exit_code = none;
          failure_reason = [];
          created_by = user;
          created_at = at;
          submitted_at = none;
          started_at = none;
          finished_at = none;
        })
        version

  unfoldable pub rerun : ObjectId → ObjectId → Text → Option Text → Op RunSubmission
  unfolding rerun_new
  rerun user run name key = do
    access ← reads (guard_run user run (some Capability.run_submit))
    replayed ← replay_or_reserve access.space.id key Endpoint.rerun none (some run)
    replayed_or replayed (rerun_new user access name key)

  -- A submitted job is cancelled by the scheduler, which a later poll reports; a run that was never
  -- submitted is cancelled at once.
  unfoldable pub cancel_job : Run → Option Text → Op Run
  unfolding record_event call
  cancel_job run (some job) = do call (λ n. ports.cancel n job); pure run
  cancel_job run none = do
    at ← now env
    let ended = record run { status = RunStatus.cancelled; finished_at = some at }
    run_update ended
    record_event env run.id RunEventType.cancelled
    pure ended

  unfoldable pub cancel : ObjectId → ObjectId → Op Run
  unfolding cancel_job record_event record_run_activity
  cancel user run = do
    access ← reads (guard_run user run (some Capability.run_cancel))
    raise_if (is_terminal access.run.status)
        (conflict_error (Conflict.run_is_terminal access.run.status))
    record_event env access.run.id RunEventType.cancel_requested
    ended ← cancel_job access.run (non_empty access.run.scheduler_job_id)
    record_run_activity env user ended ActivityAction.run_cancelled
    pure ended
