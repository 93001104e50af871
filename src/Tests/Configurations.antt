-- ===== src/Tests/Configurations.antt =====
-- application/run_configuration_service.py and the expressions of domain/secrets.py at the small store.
use workspace.Base.{
  ◌≡◌, refl, ◌++◌, true, none, [], ◌∷◌, text, Result, ok, err, arith, ◌>>=◌, strip,
}
use workspace.Domain.Enums.{EnvValueKind}
use workspace.Domain.Errors.{DomainError}
use workspace.Domain.Capabilities.{capabilities_of}
use workspace.Domain.Models.{RunConfiguration}
use workspace.Domain.Secrets.Expressions.{parse_env_value, expression, matches_name}
use workspace.Domain.Secrets.Expressions.Laws.{parse_env_value-expression}
use workspace.Store.{World}
use workspace.Store.Members.{membership_get, workspace_get}
use workspace.Store.Projects.{project_get, project_update, write_project, plan_get}
use workspace.Store.Configurations.{configuration_add}
use workspace.Access.{guard_project}
use workspace.Projects.Configurations.{RunConfigurationInput, create_configuration}
use workspace.Projects.Configurations.Defaults.{IsConsistent}
use workspace.Projects.Configurations.Steps.{
  ConfigurationStep, ConfigurationHistory, history-IsConsistent,
}
use workspace.Tests.Data.{env, store, plan, world_of}

reference_parsed :
    parse_env_value (text " ${{secrets.HF_TOKEN }} ")
    ≡ record { kind = EnvValueKind.secret; value = text "HF_TOKEN" }
unfolding parse_env_value
reference_parsed = refl

-- `$` matches in front of a line feed at the end.
newline_accepted : matches_name (text "A" ++ 10 ∷ []) ≡ true
unfolding matches_name
newline_accepted = refl

parse_env_value-expression_example :
    parse_env_value (expression (parse_env_value (text " ${{secrets.HF_TOKEN }} ")))
    ≡ parse_env_value (text " ${{secrets.HF_TOKEN }} ")
parse_env_value-expression_example = parse_env_value-expression (text " ${{secrets.HF_TOKEN }} ")

abbrev plan_store : World
plan_store = record store { compute_plans = plan ∷ [] }

abbrev input : RunConfigurationInput
input = record {
  name = text "train";
  command = text "python train.py";
  compute_plan_id = 50;
  working_directory = text ".";
  description = [];
  environment_version_id = none;
  environment_variables = (text "TOKEN", text "${{ secrets.T }}") ∷ [];
  input_bindings = [];
  compute_request = none;
  artifact_rules = [];
}

plan_store-IsConsistent : IsConsistent plan_store
plan_store-IsConsistent = record {
  defaults = (tt, tt);
  projects = λ i. ground arith;
  configurations = λ i. ground arith;
}

abbrev create_result : Result DomainError (RunConfiguration × World)
unfolding ◌>>=◌ create_configuration guard_project
create_result = create_configuration env 1 20 input plan_store

abbrev configuration_of : Result DomainError (RunConfiguration × World) → RunConfiguration
configuration_of (ok r) = r.0
configuration_of (err e) = record {
  id = 0;
  project_id = 0;
  name = [];
  working_directory = [];
  command = [];
  environment_version_id = none;
  environment_variables = [];
  input_bindings = [];
  compute_plan_id = 0;
  compute_request = none;
  artifact_rules = [];
  description = [];
}

create_returns :
    create_configuration env 1 20 input plan_store
    ≡ ok (configuration_of create_result, world_of create_result)
unfolding ◌>>=◌ create_configuration guard_project create_result project_get workspace_get
    membership_get capabilities_of plan_get configuration_add project_update write_project strip
create_returns = refl

history-IsConsistent_example : IsConsistent (world_of create_result)
history-IsConsistent_example =
    history-IsConsistent env plan_store (world_of create_result)
      (ConfigurationHistory.next ConfigurationHistory.start (
        ConfigurationStep.creates 1 20 input (configuration_of create_result)
          (world_of create_result) create_returns))
      plan_store-IsConsistent
