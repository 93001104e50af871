-- ===== src/Projects/Configurations.antt =====
-- application/run_configuration_service.py. What the request's dicts are decoded to, with the defaults of
-- missing keys, is taken as given.
pub mod Defaults
pub mod Calls
pub mod Deletion
pub mod Steps
use workspace.Base.{
  ◌==◌, Bool, true, false, not, Option, none, some, List, [], ◌∷◌, Text, text, text_eq, is_empty,
  or_else, strip, any, filter, if◌then◌else◌, Result, ok, err, ◌>>=◌, ◌>>◌, pure, raise, reads,
  gets, modify, raise_if,
}
use workspace.Domain.Errors.{
  ObjectId, DomainError, object_not_found, validation_failed, conflict_error, Violation, Conflict,
  Kind, by_id, Problem,
}
use workspace.Domain.Enums.{InputSourceType}
use workspace.Domain.Capabilities.{Capability}
use workspace.Domain.Compute.{
  ComputePlan, ComputeRequest, new_compute_request, check_request_against_plan,
}
use workspace.Domain.Models.{
  Project, EnvValue, InputBinding, ArtifactCollectionRule, RunConfiguration,
}
use workspace.Domain.Secrets.Expressions.{parse_env_map}
use workspace.Store.{Env, World, Op, new_id, or_missing}
use workspace.Store.Projects.{
  project_get, project_update, environment_version_get, plan_get, configuration_get,
}
use workspace.Store.Configurations.{
  configuration_add, configuration_update, configuration_delete, configuration_list_for_project,
}
use workspace.Access.{hide_as, guard_project}
use workspace.Projects.Paths.{normalize_path}
use workspace.Projects.Files.{has_none}

pub record RunConfigurationInput : Type 0 where
  pub name : Text
  pub command : Text
  pub compute_plan_id : ObjectId
  pub working_directory : Text
  pub description : Text
  pub environment_version_id : Option ObjectId
  pub environment_variables : List (Text × Text)
  pub input_bindings : List InputBinding
  pub compute_request : Option ComputeRequest
  pub artifact_rules : List ArtifactCollectionRule

-- `_ParsedConfiguration`
pub record ParsedConfiguration : Type 0 where
  pub name : Text
  pub command : Text
  pub working_directory : Text
  pub environment_version_id : Option ObjectId
  pub environment_variables : List (Text × EnvValue)
  pub input_bindings : List InputBinding
  pub compute_request : Option ComputeRequest
  pub artifact_rules : List ArtifactCollectionRule

unfoldable pub parse_directory : Text → Result DomainError Text
unfolding strip normalize_path
parse_directory raw =
    let directory = or_else (strip raw) (text ".") in
    if text_eq directory (text ".") then ok directory else normalize_path directory

unfoldable pub parse_environment : Option ObjectId → Op (Option ObjectId)
parse_environment none = pure none
parse_environment (some i) = do
  found ← gets (environment_version_get i)
  v ← or_missing Kind.environment_version (by_id i) found
  pure (some v.id)

abbrev pub is_artifact : InputSourceType → Bool
is_artifact InputSourceType.artifact = true
is_artifact InputSourceType.shared_resource_version = false

-- The bindings one by one, with the access paths seen so far.
unfoldable pub check_bindings : List Text → List InputBinding → Op (Unit {0})
check_bindings seen [] = pure tt
check_bindings seen (b ∷ bs) = do
  raise_if (not (is_artifact b.source_type)) (validation_failed Violation.not_an_artifact)
  raise_if (any (text_eq b.access_path) seen)
      (conflict_error (Conflict.access_path_twice b.access_path))
  check_bindings (b.access_path ∷ seen) bs

unfoldable pub check_rules : List Text → List ArtifactCollectionRule → Op (Unit {0})
check_rules seen [] = pure tt
check_rules seen (r ∷ rs) = do
  raise_if (any (text_eq r.path) seen) (conflict_error (Conflict.rule_path_twice r.path))
  check_rules (r.path ∷ seen) rs

unfoldable pub parse_request : ComputePlan → Option ComputeRequest → Op (Option ComputeRequest)
unfolding new_compute_request check_request_against_plan
parse_request plan none = pure none
parse_request plan (some amounts) = do
  request ← reads (λ _. new_compute_request amounts)
  let problems = check_request_against_plan plan request
  raise_if (not (has_none problems)) (validation_failed (Violation.over_limits problems))
  pure (some request)

-- `_build_fields`
unfoldable pub build_fields : RunConfigurationInput → ComputePlan → Op ParsedConfiguration
unfolding parse_directory parse_environment parse_env_map check_bindings parse_request check_rules
    strip
build_fields input plan = do
  let name = strip input.name
  raise_if (is_empty name) (validation_failed Violation.empty_name)
  raise_if (is_empty (strip input.command)) (validation_failed Violation.empty_command)
  directory ← reads (λ _. parse_directory input.working_directory)
  environment ← parse_environment input.environment_version_id
  variables ← reads (λ _. parse_env_map input.environment_variables)
  check_bindings [] input.input_bindings
  request ← parse_request plan input.compute_request
  check_rules [] input.artifact_rules
  pure (record {
    name = name;
    command = strip input.command;
    working_directory = directory;
    environment_version_id = environment;
    environment_variables = variables;
    input_bindings = input.input_bindings;
    compute_request = request;
    artifact_rules = input.artifact_rules;
  })

-- `_require_plan`
unfoldable pub require_plan : ObjectId → Op ComputePlan
require_plan i = do found ← gets (plan_get i); or_missing Kind.compute_plan (by_id i) found

unfoldable pub configured :
    ObjectId → ObjectId → Text → ComputePlan → ParsedConfiguration → RunConfiguration
configured i project description plan parsed = record {
  id = i;
  project_id = project;
  name = parsed.name;
  working_directory = parsed.working_directory;
  command = parsed.command;
  environment_version_id = parsed.environment_version_id;
  environment_variables = parsed.environment_variables;
  input_bindings = parsed.input_bindings;
  compute_plan_id = plan.id;
  compute_request = parsed.compute_request;
  artifact_rules = parsed.artifact_rules;
  description = description;
}

-- The first configuration becomes the project's default.
unfoldable pub default_if_none : Project → Option ObjectId → ObjectId → Op (Unit {0})
default_if_none p none i = project_update (record p { default_run_configuration_id = some i })
default_if_none p (some d) i = pure tt

unfoldable pub get_configuration : ObjectId → ObjectId → Op RunConfiguration
get_configuration user i = do
  found ← gets (configuration_get i)
  c ← or_missing Kind.run_configuration (by_id i) found
  reads (λ w. hide_as Kind.run_configuration i (guard_project user c.project_id none w))
  pure c

unfoldable pub list_configurations : ObjectId → ObjectId → Op (List RunConfiguration)
list_configurations user project = do
  reads (guard_project user project none)
  gets (configuration_list_for_project project)

unfoldable pub update_configuration :
    ObjectId → ObjectId → RunConfigurationInput → Op RunConfiguration
unfolding get_configuration require_plan build_fields configured
update_configuration user i input = do
  c ← get_configuration user i
  reads (guard_project user c.project_id (some Capability.run_configuration_manage))
  plan ← require_plan input.compute_plan_id
  parsed ← build_fields input plan
  let new = configured c.id c.project_id input.description plan parsed
  configuration_update new
  pure new

-- `remaining[0].id if remaining else None`
abbrev pub first_id : List RunConfiguration → Option ObjectId
first_id [] = none
first_id (c ∷ cs) = some c.id

abbrev pub is_default : ObjectId → Option ObjectId → Bool
is_default i none = false
is_default i (some d) = d == i

-- A project whose default goes takes the first one that is left.
unfoldable pub replace_default : ObjectId → Option Project → Op (Unit {0})
replace_default i none = pure tt
replace_default i (some p) =
    if not (is_default i p.default_run_configuration_id) then pure tt else do
      listed ← gets (configuration_list_for_project p.id)
      project_update (record p {
        default_run_configuration_id = first_id (filter (λ c. not (c.id == i)) listed);
      })

unfoldable pub delete_configuration : ObjectId → ObjectId → Op (Unit {0})
unfolding get_configuration replace_default
delete_configuration user i = do
  c ← get_configuration user i
  reads (guard_project user c.project_id (some Capability.run_configuration_manage))
  found ← gets (project_get c.project_id)
  replace_default c.id found
  modify (configuration_delete i)

module _ (env : Env) where
  unfoldable pub create_configuration :
      ObjectId → ObjectId → RunConfigurationInput → Op RunConfiguration
  unfolding require_plan build_fields configured default_if_none
  create_configuration user project input = do
    access ← reads (guard_project user project (some Capability.run_configuration_manage))
    plan ← require_plan input.compute_plan_id
    parsed ← build_fields input plan
    i ← new_id env
    let c = configured i project input.description plan parsed
    configuration_add c
    default_if_none access.project access.project.default_run_configuration_id i
    pure c
