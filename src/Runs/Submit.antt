-- ===== src/Runs/Submit.antt =====
-- `_submit`, `_record_event` and `_record_run_activity` of RunService (application/run_service.py):
-- a submission that fails is a fact about the run, and is no error of the caller.
use workspace.Base.{
  false, Option, none, some, List, [], ◌∷◌, map, filter, any, Text, text, text_eq, dict_get,
  dict_set, dict_default, is_empty, if◌then◌else◌, Result, ok, err, ◌>>=◌, ◌>>◌, pure, gets, ◌==◌,
}
use workspace.Domain.Errors.{ObjectId}
use workspace.Domain.Enums.{RunStatus, RunEventType, ActivityAction, TargetType, NotificationType}
use workspace.Domain.Models.{Run, ProjectVersion}
use workspace.Domain.Snapshot.{RunSnapshot, is_root_directory}
use workspace.Store.{Env, World, Op, new_id, now}
use workspace.Store.Runs.{run_update, event_add}
use workspace.Activities.{record_activity, publish}
use workspace.Runs.Ports.{Ports, RunPaths, SchedulerSubmission, try_call}

-- An empty job id counts as none.
abbrev pub non_empty : Option Text → Option Text
non_empty none = none
non_empty (some t) = if is_empty t then none else some t

-- `SecretVault.resolve`: the secrets of these names, those that exist.
unfoldable pub resolve_secrets : ObjectId → List Text → World → List (Text × Text)
resolve_secrets ws names w =
    map (λ r. (r.name, r.value))
      (filter (λ r. if r.workspace_id == ws then any (text_eq r.name) names else false) w.secrets)

-- The references whose secret exists, put into the environment.
inject_value : Text → Option Text → List (Text × Text) → List (Text × Text)
inject_value name none environment = environment
inject_value name (some v) environment = dict_set name v environment

unfoldable pub inject_secrets :
    List (Text × Text) → List (Text × Text) → List (Text × Text) → List (Text × Text)
unfolding inject_value dict_get dict_set
inject_secrets values [] environment = environment
inject_secrets values ((name, target) ∷ refs) environment =
    inject_secrets values refs (inject_value name (dict_get target values) environment)

-- The process environment of a run: the only place where a secret's value appears.
unfoldable pub run_environment : ObjectId → RunSnapshot → RunPaths → World → List (Text × Text)
unfolding inject_secrets resolve_secrets dict_default
run_environment ws s paths w =
    inject_secrets (resolve_secrets ws (map (λ r. r.1) s.env_secret_refs) w) s.env_secret_refs
      (dict_default (text "WORKSPACE107_INPUTS_DIR") paths.inputs s.env_literals)

module _ (ports : Ports) where
  unfoldable pub submission_of :
      Run → RunSnapshot → RunPaths → List (Text × Text) → SchedulerSubmission
  submission_of run s paths environment = record {
    run_id = run.id;
    job_name = run.name;
    work_dir =
        if is_root_directory s.working_directory
        then paths.work
        else ports.join_path paths.work s.working_directory;
    command = s.command;
    setup_command = s.environment_setup_command;
    environment_image = s.environment_image;
    stdout_path = paths.stdout;
    stderr_path = paths.stderr;
    configuration = s.scheduler;
    environment = environment;
  }

  -- The `try` block: the job's id, or what was raised.
  unfoldable pub submit_prepared :
      Run → RunSnapshot → ObjectId → Result Text RunPaths → Op (Result Text Text)
  unfolding submission_of run_environment try_call
  submit_prepared run s ws (err reason) = pure (err reason)
  submit_prepared run s ws (ok paths) = do
    environment ← gets (run_environment ws s paths)
    try_call (λ n. ports.submit n (submission_of run s paths environment))

  unfoldable pub try_submit : Run → RunSnapshot → ProjectVersion → ObjectId → Op (Result Text Text)
  unfolding submit_prepared try_call
  try_submit run s version ws = do
    paths ← try_call (λ n.
        ports.prepare_run_directory n run.id (map (λ f. (f.path, f.content_hash)) version.files)
          (map (λ b. (b.access_path, b.source_id)) s.input_bindings))
    submit_prepared run s ws paths

module _ (env : Env) where
  -- `_record_event`
  unfoldable pub record_event : ObjectId → RunEventType → Op (Unit {0})
  record_event run type = do
    i ← new_id env
    at ← now env
    event_add (record { id = i; run_id = run; type = type; created_at = at })

  -- `_record_run_activity`
  unfoldable pub record_run_activity : ObjectId → Run → ActivityAction → Op (Unit {0})
  record_run_activity user run action = record_activity env user (record {
    workspace_id = run.workspace_id;
    project_id = some run.project_id;
    action = action;
    target_type = TargetType.run;
    target_id = run.id;
    target_name = run.name;
  })

  -- `Notifier.run_submit_failed` and `Notifier.run_finished`, which nobody in particular caused.
  unfoldable pub told_of_run : NotificationType → Run → Text → Op (Unit {0})
  told_of_run type run reason = publish env run.created_by none (record {
    type = type;
    body = reason;
    workspace_id = some run.workspace_id;
    target = some (TargetType.run, run.id);
    mandatory = false;
  })

  -- What follows the `try` block; the caller's run object is changed too.
  unfoldable pub submitted : Run → Result Text Text → Op Run
  unfolding record_event told_of_run
  submitted run (err reason) = do
    at ← now env
    let failed = record run {
      status = RunStatus.submit_failed;
      failure_reason = reason;
      finished_at = some at;
    }
    run_update failed
    record_event run.id RunEventType.submit_failed
    told_of_run NotificationType.run_submit_failed failed reason
    pure failed
  submitted run (ok job) = do
    at ← now env
    let sent = record run { scheduler_job_id = some job; submitted_at = some at }
    run_update sent
    record_event run.id RunEventType.submitted
    pure sent

module _ (env : Env) (ports : Ports) where
  -- `_submit`
  unfoldable pub submit : Run → RunSnapshot → ProjectVersion → ObjectId → Op Run
  unfolding try_submit submitted
  submit run s version ws = do result ← try_submit ports run s version ws; submitted env run result
