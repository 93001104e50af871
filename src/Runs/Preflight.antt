-- ===== src/Runs/Preflight.antt =====
-- The checks of RunService (application/run_service.py) before a submission: `preflight` and
-- `_revalidate_snapshot`, with what they ask of plans, entitlements, inputs and secrets.
use workspace.Base.{
  pos, ltb_ℤ, ◌==◌, Bool, true, not, Option, none, some, List, [], ◌∷◌, ◌++◌, map, filter, any,
  Text, text_eq, strip, or_else, is_empty, if◌then◌else◌, Result, ok, ◌>>=◌, ◌>>◌, pure, raise,
  reads, gets, raise_if,
}
use workspace.Domain.Errors.{ObjectId, DomainError, Problem, Kind, by_id, object_not_found}
use workspace.Domain.Capabilities.{Capability}
use workspace.Domain.Compute.{
  ComputePlan, ComputeRequest, ResourceEntitlement, is_expired, new_compute_request,
  default_request, check_request_against_plan,
}
use workspace.Domain.Models.{
  Workspace, Project, ProjectVersion, EnvironmentVersion, RunConfiguration, InputBinding, Artifact,
  artifact_is_available,
}
use workspace.Domain.Secrets.{ResolvedEnv, resolve_env}
use workspace.Domain.Snapshot.{RunSnapshot}
use workspace.Store.{Env, World, Op, now, or_missing}
use workspace.Store.Members.{workspace_get}
use workspace.Store.Projects.{
  version_get, version_latest, environment_version_get, plan_get, configuration_get,
}
use workspace.Store.Runs.{count_unfinished_for_plan, entitlement_get_for_plan, artifact_get}
use workspace.Access.{guard_project}

-- What a caller asks for.
pub record RunDraft : Type 0 where
  pub run_configuration_id : ObjectId
  pub project_version_id : Option ObjectId
  pub name : Text
  pub command_override : Text
  pub working_directory_override : Text
  pub compute_request_override : Option ComputeRequest

pub record PreflightResult : Type 0 where
  pub problems : List Problem
  pub project_version : Option ProjectVersion
  pub environment_version : Option EnvironmentVersion
  pub compute_plan : Option ComputePlan
  pub compute_request : Option ComputeRequest
  pub resolved_env : ResolvedEnv

-- `SecretVault.list_names`
unfoldable pub secret_names : ObjectId → World → List Text
secret_names ws w = map (λ r. r.name) (filter (λ r. r.workspace_id == ws) w.secrets)

unfoldable pub variable_items : ObjectId → World → List (Text × Text)
variable_items ws w = map (λ r. (r.name, r.value)) (filter (λ r. r.workspace_id == ws) w.variables)

-- `_check_concurrency`
unfoldable pub check_concurrency : ObjectId → ResourceEntitlement → World → List Problem
check_concurrency ws e w =
    let active = count_unfinished_for_plan ws e.compute_plan_id w in
    if ltb_ℤ (pos active) e.max_concurrent_runs
    then []
    else Problem.concurrency_reached active e.max_concurrent_runs ∷ []

check_input : ObjectId → InputBinding → Option Artifact → List Problem
check_input ws b none = Problem.input_missing b.access_path ∷ []
check_input ws b (some a) =
    if not (a.workspace_id == ws)
    then Problem.input_missing b.access_path ∷ []
    else if not (artifact_is_available a)
    then Problem.input_cleaned b.access_path ∷ []
    else []

-- `_check_inputs`, and the last loop of `_revalidate_snapshot`
unfoldable pub check_inputs : ObjectId → World → List InputBinding → List Problem
unfolding check_input
check_inputs ws w [] = []
check_inputs ws w (b ∷ bs) = check_input ws b (artifact_get b.source_id w) ++ check_inputs ws w bs

-- `_resolve_project_version`
unfoldable pub version_of : ObjectId → ObjectId → Option ProjectVersion → Op (Option ProjectVersion)
version_of project i none = raise (object_not_found Kind.project_version (by_id i))
version_of project i (some v) =
    if v.project_id == project
    then pure (some v)
    else raise (object_not_found Kind.project_version (by_id i))

unfoldable pub resolve_project_version : ObjectId → Option ObjectId → Op (Option ProjectVersion)
unfolding version_of
resolve_project_version project none = gets (version_latest project)
resolve_project_version project (some i) = do
  found ← gets (version_get i)
  version_of project i found

-- `a or b` on identifiers
abbrev pub or_id : Option ObjectId → Option ObjectId → Option ObjectId
or_id none b = b
or_id (some i) b = some i

default_environment : Option Workspace → Option ObjectId
default_environment none = none
default_environment (some x) = x.default_environment_version_id

environment_of : Option EnvironmentVersion → Option EnvironmentVersion × List Problem
environment_of none = (none, Problem.environment_missing ∷ [])
environment_of (some v) =
    if v.available then (some v, []) else (none, Problem.environment_unavailable ∷ [])

candidate_environment : Option ObjectId → World → Option EnvironmentVersion × List Problem
unfolding environment_of
candidate_environment none w = (none, Problem.no_environment ∷ [])
candidate_environment (some i) w = environment_of (environment_version_get i w)

-- `_resolve_environment_version`: of the configuration, else the project, else the workspace.
unfoldable pub resolve_environment_version :
    Project → RunConfiguration → World → Option EnvironmentVersion × List Problem
unfolding candidate_environment default_environment
resolve_environment_version project configuration w =
    candidate_environment
      (or_id configuration.environment_version_id (
        or_id project.environment_version_id
          (default_environment (workspace_get project.workspace_id w))))
      w

-- `_resolve_compute_request`; an override is validated where it is constructed.
unfoldable pub resolve_compute_request :
    ComputePlan → RunConfiguration → RunDraft → Result DomainError ComputeRequest
resolve_compute_request plan configuration draft = elim draft.compute_request_override [
  | some r ↦ new_compute_request r
  | none ↦ elim configuration.compute_request [ some r ↦ ok r | none ↦ default_request plan ]
]

module _ (env : Env) where
  unfoldable pub entitlement_problems :
      ObjectId → Problem → Option ResourceEntitlement → Op (List Problem)
  unfolding check_concurrency
  entitlement_problems ws missing none = pure (missing ∷ [])
  entitlement_problems ws missing (some e) = do
    at ← now env
    if is_expired e (env.isoformat at)
        then pure (Problem.entitlement_expired ∷ [])
        else gets (check_concurrency ws e)

  -- What both checks ask of the entitlement for a plan.
  unfoldable pub check_entitlement : ObjectId → ObjectId → Problem → Op (List Problem)
  unfolding entitlement_problems
  check_entitlement ws plan missing = do
    e ← gets (entitlement_get_for_plan ws plan)
    entitlement_problems ws missing e

  unfoldable pub plan_problems :
      ObjectId
      → RunConfiguration
      → RunDraft
      → Option ComputePlan
      → Op (Option ComputeRequest × List Problem)
  unfolding check_entitlement
  plan_problems ws configuration draft none = pure (none, Problem.plan_missing ∷ [])
  plan_problems ws configuration draft (some plan) = do
    problems ← check_entitlement ws plan.id Problem.no_entitlement
    request ← reads (λ _. resolve_compute_request plan configuration draft)
    pure (some request, problems ++ check_request_against_plan plan request)

-- `configuration is None or configuration.project_id != project_id`
abbrev pub not_of_project : ObjectId → Option RunConfiguration → Bool
not_of_project project none = true
not_of_project project (some c) = not (c.project_id == project)

-- The configuration that a draft names, of this project.
unfoldable pub configuration_of : ObjectId → RunDraft → Op RunConfiguration
configuration_of project draft = do
  found ← gets (configuration_get draft.run_configuration_id)
  raise_if (not_of_project project found)
      (object_not_found Kind.run_configuration (by_id draft.run_configuration_id))
  or_missing Kind.run_configuration (by_id draft.run_configuration_id) found

-- `(draft.command_override or configuration.command).strip()`
abbrev pub command_of : RunConfiguration → RunDraft → Text
command_of configuration draft = strip (or_else draft.command_override configuration.command)

abbrev pub version_problems : Option ProjectVersion → List Problem
version_problems none = Problem.no_version ∷ []
version_problems (some _) = []

abbrev pub command_problems : Text → List Problem
command_problems command = if is_empty command then Problem.empty_command ∷ [] else []

pub source_version_problems : Option ProjectVersion → List Problem
source_version_problems none = Problem.source_version_missing ∷ []
source_version_problems (some _) = []

pub source_environment_problems : Option EnvironmentVersion → List Problem
source_environment_problems none = Problem.source_environment_missing ∷ []
source_environment_problems (some v) =
    if v.available then [] else Problem.environment_unavailable ∷ []

pub secret_problems : List Text → List (Text × Text) → List Problem
secret_problems names [] = []
secret_problems names ((name, target) ∷ refs) =
    let rest = secret_problems names refs in
    if any (text_eq target) names then rest else Problem.secret_missing name target ∷ rest

module _ (env : Env) where
  unfoldable pub preflight : ObjectId → ObjectId → RunDraft → Op PreflightResult
  unfolding plan_problems variable_items
  preflight user project draft = do
    access ← reads (guard_project user project (some Capability.run_submit))
    configuration ← configuration_of project draft
    version ← resolve_project_version project draft.project_version_id
    environment ← gets (resolve_environment_version access.project configuration)
    plan ← gets (plan_get configuration.compute_plan_id)
    request ← plan_problems env access.space.id configuration draft plan
    variables ← gets (variable_items access.space.id)
    names ← gets (secret_names access.space.id)
    let resolution = resolve_env variables names configuration.environment_variables
    inputs ← gets (λ w. check_inputs access.space.id w configuration.input_bindings)
    pure (record {
      problems =
          version_problems version
          ++ (environment.1
              ++ (request.1
                  ++ (command_problems (command_of configuration draft)
                      ++ (resolution.1 ++ inputs))));
      project_version = version;
      environment_version = environment.0;
      compute_plan = plan;
      compute_request = request.0;
      resolved_env = resolution.0;
    })

  unfoldable pub source_plan_problems :
      ObjectId → ComputeRequest → Option ComputePlan → Op (List Problem)
  unfolding check_entitlement
  source_plan_problems ws request none = pure (Problem.source_plan_missing ∷ [])
  source_plan_problems ws request (some plan) = do
    problems ← check_entitlement env ws plan.id Problem.source_entitlement_missing
    pure (problems ++ check_request_against_plan plan request)

  -- `_revalidate_snapshot`
  unfoldable pub revalidate_snapshot : RunSnapshot → ObjectId → Op (List Problem)
  unfolding source_version_problems source_environment_problems source_plan_problems secret_problems
  revalidate_snapshot s ws = do
    version ← gets (version_get s.project_version_id)
    environment ← gets (environment_version_get s.environment_version_id)
    plan ← gets (plan_get s.compute_plan_id)
    plan_side ← source_plan_problems ws s.compute_request plan
    names ← gets (secret_names ws)
    inputs ← gets (λ w. check_inputs ws w s.input_bindings)
    pure (
        source_version_problems version
        ++ (source_environment_problems environment
            ++ (plan_side ++ (secret_problems names s.env_secret_refs ++ inputs))))
