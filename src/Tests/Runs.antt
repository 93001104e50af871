-- ===== src/Tests/Runs.antt =====
-- application/run_service.py and application/run_lifecycle.py at the small store.
use workspace.Base.{
  strip, true, Option, Result, err, pos, ◌≡◌, refl, false, none, some, [], ◌∷◌, text, ok, arith,
  ◌>>=◌,
}
use workspace.Domain.Enums.{WorkspaceRole, RunStatus}
use workspace.Domain.Capabilities.{Capability, capabilities_of}
use workspace.Domain.Models.{RunConfiguration, ProjectVersion, EnvironmentVersion, Run}
use workspace.Store.{World, insert_row}
use workspace.Store.Members.{membership_get, workspace_get}
use workspace.Store.Projects.{
  project_get, configuration_get, plan_get, version_latest, environment_version_get,
}
use workspace.Store.Runs.{
  snapshot_add, run_add, run_list_unfinished, claim_terminal, snapshot_get, run_update, event_add,
  write_run, run_get, count_unfinished_for_plan, entitlement_get_for_plan, idempotency_find,
  idempotency_reserve, idempotency_attach_run,
}
use workspace.Access.{ProjectAccess, guard_project}
use workspace.Activities.{record_activity, publish}
use workspace.Runs.Preflight.{
  RunDraft, resolve_project_version, resolve_compute_request, check_concurrency,
  resolve_environment_version, check_inputs, secret_names,
}
use workspace.Runs.Ports.{try_call}
use workspace.Domain.Compute.{
  is_expired, default_request, new_compute_request, check_request_against_plan,
  resolve_scheduler_configuration,
}
use workspace.Domain.Errors.{DomainError}
use workspace.Domain.Snapshot.{build_snapshot}
use workspace.Domain.Secrets.{resolve_env}
use workspace.Runs.Create.{create}
use workspace.Runs.Idempotency.{RunSubmission, replay_or_reserve, attach_idempotency}
use workspace.Runs.Lifecycle.{sync_all}
use workspace.Runs.Limits.{WithinLimits}
use workspace.Runs.Proven.{SuccessesReported}
use workspace.Runs.Steps.{
  RunStep, RunHistory, history-WithinLimits, history-IsRow, history-SuccessesReported,
}
use workspace.Runs.Replays.{create_replays, create_repeats}
use workspace.Runs.Repeats.{create-create}
use workspace.Tests.Data.{world_of, plan, env, ports, team, project, run, store, used_key}

abbrev draft : RunDraft
draft = record {
  run_configuration_id = 70;
  project_version_id = none;
  name = [];
  command_override = [];
  working_directory_override = [];
  compute_request_override = none;
}

store-WithinLimits : WithinLimits store
unfolding count_unfinished_for_plan entitlement_get_for_plan
store-WithinLimits = record { within = λ ws plan e h. ground arith }

-- The job is done: the run ends, and its place is free.
history-WithinLimits_example : WithinLimits ((sync_all env ports store).1)
history-WithinLimits_example =
    history-WithinLimits env ports store ((sync_all env ports store).1)
      (RunHistory.next RunHistory.start RunStep.syncs_all) store-WithinLimits

abbrev project_access : ProjectAccess
project_access = record { project = project; space = team; role = WorkspaceRole.member }

may_submit : guard_project 2 20 (some Capability.run_submit) store ≡ ok project_access
unfolding guard_project capabilities_of project_get workspace_get membership_get
may_submit = refl

key_found : idempotency_find 10 (text "k") store ≡ some used_key
unfolding idempotency_find
key_found = refl

run_found : run_get 30 store ≡ some run
unfolding run_get
run_found = refl

-- The key is the one that the run was created under.
create_repeats_example : (false ≡ false) × (store ≡ store) × (run.project_id ≡ 20)
create_repeats_example =
    create_repeats env ports store 2 20 draft 107 [] project_access may_submit used_key key_found
      (record { run = run; created = false }) store
      (create_replays env ports store 2 20 draft 107 [] project_access may_submit used_key key_found
        30 run refl refl run_found refl)

abbrev cancelled_run : Run
cancelled_run = record run { status = RunStatus.cancelled; finished_at = some 1 }

abbrev ended_store : World
ended_store = record store { runs = record run { id = 31 } ∷ cancelled_run ∷ [] }

cancelled_found : run_get 30 ended_store ≡ some cancelled_run
unfolding run_get
cancelled_found = refl

-- The other run is synced, the cancelled one stays.
history-IsRow_example : run_get 30 ((sync_all env ports ended_store).1) ≡ some cancelled_run
history-IsRow_example =
    history-IsRow env ports 30 cancelled_run refl ended_store ((sync_all env ports ended_store).1)
      (RunHistory.next RunHistory.start RunStep.syncs_all) cancelled_found

store-SuccessesReported : SuccessesReported ports store
unfolding run_get
store-SuccessesReported = record { reported = λ j row h e. absurd (ground arith) }

-- The running run becomes a success.
sync_succeeds :
    run_get 30 ((sync_all env ports store).1)
    ≡ some (record run {
      status = RunStatus.succeeded;
      exit_code = some (pos 0);
      finished_at = some 1;
    })
unfolding ◌>>=◌ sync_all run_get run_list_unfinished claim_terminal snapshot_get run_update
    event_add write_run record_activity publish
sync_succeeds = refl

history-SuccessesReported_example : SuccessesReported ports ((sync_all env ports store).1)
history-SuccessesReported_example =
    history-SuccessesReported env ports store ((sync_all env ports store).1)
      (RunHistory.next RunHistory.start RunStep.syncs_all) store-SuccessesReported

abbrev configuration : RunConfiguration
configuration = record {
  id = 70;
  project_id = 20;
  name = text "default";
  working_directory = text ".";
  command = text "make";
  environment_version_id = some 90;
  environment_variables = [];
  input_bindings = [];
  compute_plan_id = 50;
  compute_request = none;
  artifact_rules = [];
  description = [];
}

abbrev version : ProjectVersion
version = record {
  id = 80;
  project_id = 20;
  sequence = 1;
  message = [];
  files = [];
  created_by = 1;
  created_at = 0;
}

abbrev environment_version : EnvironmentVersion
environment_version = record {
  id = 90;
  environment_id = 91;
  version = text "1";
  description = [];
  image = text "python";
  setup_command = [];
  available = true;
}

-- Everything that a submission needs, and one place.
abbrev ready_store : World
ready_store = record ended_store {
  runs = cancelled_run ∷ [];
  run_configurations = configuration ∷ [];
  project_versions = version ∷ [];
  environment_versions = environment_version ∷ [];
  compute_plans = plan ∷ [];
}

abbrev status_of : {E : Type 0} → Result E (RunSubmission × World) → Option RunStatus
status_of (ok (s, w)) = some s.run.status
status_of (err e) = none

-- The storage fails, which is a fact about the run, not an error of the call.
create_fails_later :
    status_of (create env ports 2 20 draft none ready_store) ≡ some RunStatus.submit_failed
unfolding ◌>>=◌ create guard_project project_get workspace_get membership_get capabilities_of
    replay_or_reserve configuration_get resolve_project_version plan_get entitlement_get_for_plan
    is_expired resolve_compute_request default_request new_compute_request
    check_request_against_plan resolve_scheduler_configuration build_snapshot version_latest
    environment_version_get strip check_concurrency count_unfinished_for_plan
    resolve_environment_version check_inputs resolve_env snapshot_add insert_row run_add event_add
    run_update write_run try_call record_activity publish attach_idempotency secret_names
create_fails_later = refl

-- A run is made under a new key, and asked for again.
abbrev keyed_result : Result DomainError (RunSubmission × World)
unfolding ◌>>=◌ create
keyed_result = create env ports 2 20 draft (some (text "n")) ready_store

abbrev submission_of_result : Result DomainError (RunSubmission × World) → RunSubmission
submission_of_result (ok r) = r.0
submission_of_result (err e) = record { run = run; created = false }

keyed_returns :
    create env ports 2 20 draft (some (text "n")) ready_store
    ≡ ok (submission_of_result keyed_result, world_of keyed_result)
unfolding ◌>>=◌ create keyed_result guard_project project_get workspace_get membership_get
    capabilities_of replay_or_reserve configuration_get resolve_project_version plan_get
    entitlement_get_for_plan is_expired resolve_compute_request default_request new_compute_request
    check_request_against_plan resolve_scheduler_configuration build_snapshot version_latest
    environment_version_get strip check_concurrency count_unfinished_for_plan
    resolve_environment_version check_inputs resolve_env snapshot_add insert_row run_add event_add
    run_update write_run try_call record_activity publish attach_idempotency secret_names
    idempotency_find idempotency_reserve idempotency_attach_run
keyed_returns = refl

keyed_created : (submission_of_result keyed_result).created ≡ true
unfolding ◌>>=◌ create keyed_result guard_project project_get workspace_get membership_get
    capabilities_of replay_or_reserve configuration_get resolve_project_version plan_get
    entitlement_get_for_plan is_expired resolve_compute_request default_request new_compute_request
    check_request_against_plan resolve_scheduler_configuration build_snapshot version_latest
    environment_version_get strip check_concurrency count_unfinished_for_plan
    resolve_environment_version check_inputs resolve_env snapshot_add insert_row run_add event_add
    run_update write_run try_call record_activity publish attach_idempotency secret_names
    idempotency_find idempotency_reserve idempotency_attach_run
keyed_created = refl

keyed_allowed : guard_project 2 20 (some Capability.run_submit) ready_store ≡ ok project_access
unfolding guard_project capabilities_of project_get workspace_get membership_get
keyed_allowed = refl

still_allowed :
    guard_project 2 20 (some Capability.run_submit) (world_of keyed_result) ≡ ok project_access
unfolding ◌>>=◌ create keyed_result guard_project project_get workspace_get membership_get
    capabilities_of replay_or_reserve configuration_get resolve_project_version plan_get
    entitlement_get_for_plan is_expired resolve_compute_request default_request new_compute_request
    check_request_against_plan resolve_scheduler_configuration build_snapshot version_latest
    environment_version_get strip check_concurrency count_unfinished_for_plan
    resolve_environment_version check_inputs resolve_env snapshot_add insert_row run_add event_add
    run_update write_run try_call record_activity publish attach_idempotency secret_names
    idempotency_find idempotency_reserve idempotency_attach_run
still_allowed = refl

create-create_example :
    (r : Run) × (create env ports 2 20 draft (some (text "n")) (world_of keyed_result)
      ≡ ok (record { run = r; created = false }, world_of keyed_result))
    × (r.id ≡ (submission_of_result keyed_result).run.id)
create-create_example =
    create-create env ports 2 20 draft 110 [] ready_store (world_of keyed_result)
      (submission_of_result keyed_result) keyed_returns keyed_created project_access keyed_allowed
      env ports 2 draft project_access still_allowed refl
