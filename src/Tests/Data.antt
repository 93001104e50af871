-- ===== src/Tests/Data.antt =====
-- A small store: a collaborative workspace of two members, a project with a run, and a plan that
-- allows a single unfinished run.
use workspace.Base.{
  ℕ, ◌==◌, leb, ◌&&◌, if◌then◌else◌, pos, ◌+◌, none, some, [], ◌∷◌, text, Result, ok, err,
}
use workspace.Domain.Enums.{
  WorkspaceKind, WorkspaceRole, MembershipStatus, ProjectStatus, RunStatus, SchedulerState,
}
use workspace.Domain.Errors.{ObjectId}
use workspace.Domain.Compute.{ComputePlan, ComputeRequest, ResourceEntitlement}
use workspace.Domain.Models.{Workspace, Membership, Project, Run, Endpoint, IdempotencyRecord}
use workspace.Store.{Env, World}
use workspace.Runs.Ports.{Ports}

-- The two cases of an ASCII letter are one to LIKE.
abbrev pub lower : ℕ → ℕ
lower c = if leb 65 c && leb c 90 then c + 32 else c

abbrev pub env : Env
env = record {
  uuid = λ n. 1000 + n;
  clock = λ n. n;
  isoformat = λ t. text "2026-01-01T00:00:00+00:00";
  like = λ c d. lower c == lower d;
}

abbrev pub ports : Ports
ports = record {
  prepare_run_directory = λ n i files inputs. err (text "disk full");
  join_path = λ a b. b;
  submit = λ n s. ok (text "7");
  cancel = λ n j. ok tt;
  poll = λ n j. ok (record {
    state = SchedulerState.completed;
    exit_code = some (pos 0);
    started_at = none;
    finished_at = none;
    reason = [];
  });
  collect_artifact = λ n r a p. ok none;
}

abbrev pub team : Workspace
team = record {
  id = 10;
  kind = WorkspaceKind.collaborative;
  name = text "team";
  description = [];
  owner_id = 1;
  default_environment_version_id = none;
}

abbrev pub membership : ObjectId → ObjectId → WorkspaceRole → Membership
membership i user role = record {
  id = i;
  workspace_id = 10;
  user_id = user;
  role = role;
  status = MembershipStatus.active;
}

abbrev pub project : Project
project = record {
  id = 20;
  workspace_id = 10;
  name = text "model";
  description = [];
  status = ProjectStatus.active;
  environment_version_id = none;
  default_run_configuration_id = none;
  created_by = 1;
  updated_at = 0;
}

abbrev pub run : Run
run = record {
  id = 30;
  project_id = 20;
  workspace_id = 10;
  snapshot_id = 40;
  compute_plan_id = 50;
  source_run_configuration_id = none;
  source_run_id = none;
  name = text "first";
  status = RunStatus.running;
  scheduler_job_id = some (text "7");
  exit_code = none;
  failure_reason = [];
  created_by = 1;
  created_at = 0;
  submitted_at = some 0;
  started_at = some 0;
  finished_at = none;
}

abbrev pub entitlement : ResourceEntitlement
entitlement = record {
  id = 60;
  workspace_id = 10;
  compute_plan_id = 50;
  max_concurrent_runs = pos 1;
  expires_at = none;
}

abbrev pub used_key : IdempotencyRecord
used_key = record {
  workspace_id = 10;
  key = text "k";
  endpoint = Endpoint.create_run;
  run_id = some 30;
}

abbrev pub store : World
store = record {
  users = [];
  workspaces = team ∷ [];
  memberships = membership 11 1 WorkspaceRole.owner ∷ membership 12 2 WorkspaceRole.member ∷ [];
  variables = [];
  secrets = [];
  projects = project ∷ [];
  project_files = [];
  project_versions = [];
  environment_versions = [];
  compute_plans = [];
  entitlements = entitlement ∷ [];
  run_configurations = [];
  run_snapshots = [];
  runs = run ∷ [];
  run_events = [];
  idempotency = used_key ∷ [];
  artifacts = [];
  activities = [];
  notifications = [];
  fork_relations = [];
  calls = 0;
}

abbrev pub world_of : {A : Type 0} {E : Type 0} → Result E (A × World) → World
world_of (ok x) = x.1
world_of (err e) = store

abbrev pub request : ComputeRequest
request = record {
  nodes = pos 1;
  cpus = pos 4;
  memory_mb = pos 1024;
  gpus = pos 0;
  time_limit_minutes = pos 60;
}

abbrev pub plan : ComputePlan
plan = record {
  id = 50;
  code = text "cpu";
  name = text "CPU";
  description = [];
  default_nodes = pos 1;
  default_cpus = pos 4;
  default_memory_mb = pos 1024;
  default_gpus = pos 0;
  default_time_limit_minutes = pos 60;
  max_nodes = pos 1;
  max_cpus = pos 8;
  max_memory_mb = pos 2048;
  max_gpus = pos 0;
  max_time_limit_minutes = pos 120;
  mapping = record { cluster = text "c"; account = text "a"; partition = text "p"; qos = text "q" };
}
