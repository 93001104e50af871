-- ===== src/Projects/Settings.antt =====
-- The project itself in application/project_service.py: create, update, archive.
use workspace.Base.{
  ◌==◌, Bool, true, false, ◌&&◌, not, Option, none, some, Text, text_eq, is_empty, strip, ◌>>=◌,
  ◌>>◌, pure, reads, gets, raise_if,
}
use workspace.Domain.Errors.{
  ObjectId, object_not_found, validation_failed, conflict_error, Violation, Conflict, Kind, by_id,
}
use workspace.Domain.Enums.{ProjectStatus, ActivityAction, TargetType}
use workspace.Domain.Capabilities.{Capability}
use workspace.Domain.Models.{Time, Project, RunConfiguration}
use workspace.Store.{Env, Op, new_id, now, or_missing}
use workspace.Store.Projects.{
  name_exists, project_add, project_update, environment_version_get, configuration_get,
}
use workspace.Access.{guard_workspace, guard_project}
use workspace.Activities.{record_activity}

-- `if not name: raise …`, and a name that the workspace has is a conflict.
unfoldable pub check_name : ObjectId → Text → Op (Unit {0})
check_name ws name = do
  raise_if (is_empty name) (validation_failed Violation.empty_name)
  taken ← gets (name_exists ws name)
  raise_if taken (conflict_error Conflict.name_taken)

unfoldable pub new_project :
    ObjectId → ObjectId → Text → Text → Option ObjectId → ObjectId → Time → Project
new_project i ws name description environment user at = record {
  id = i;
  workspace_id = ws;
  name = name;
  description = description;
  status = ProjectStatus.active;
  environment_version_id = environment;
  default_run_configuration_id = none;
  created_by = user;
  updated_at = at;
}

-- `name is not None`: a new name is checked, the old one is not.
unfoldable pub renamed : Option Text → Project → Op Project
unfolding check_name
renamed none p = pure p
renamed (some raw) p = do
  let name = strip raw
  raise_if (is_empty name) (validation_failed Violation.empty_name)
  taken ← gets (name_exists p.workspace_id name)
  raise_if (not (text_eq name p.name) && taken) (conflict_error Conflict.name_taken)
  pure (record p { name = name })

abbrev pub described : Option Text → Project → Project
described none p = p
described (some description) p = record p { description = description }

unfoldable pub with_environment : Bool → Option ObjectId → Project → Op Project
with_environment true version p = pure (record p { environment_version_id = none })
with_environment false none p = pure p
with_environment false (some i) p = do
  found ← gets (environment_version_get i)
  v ← or_missing Kind.environment_version (by_id i) found
  pure (record p { environment_version_id = some v.id })

-- `configuration is None or configuration.project_id != project.id`
abbrev pub is_foreign : ObjectId → Option RunConfiguration → Bool
is_foreign project none = true
is_foreign project (some c) = not (c.project_id == project)

unfoldable pub with_default : Option ObjectId → Project → Op Project
with_default none p = pure p
with_default (some i) p = do
  found ← gets (configuration_get i)
  raise_if (is_foreign p.id found) (object_not_found Kind.run_configuration (by_id i))
  c ← or_missing Kind.run_configuration (by_id i) found
  pure (record p { default_run_configuration_id = some c.id })

module _ (env : Env) where
  unfoldable pub project_activity : ObjectId → Project → ActivityAction → Op (Unit {0})
  project_activity user p action = record_activity env user (record {
    workspace_id = p.workspace_id;
    project_id = some p.id;
    action = action;
    target_type = TargetType.project;
    target_id = p.id;
    target_name = p.name;
  })

  unfoldable pub create_project : ObjectId → ObjectId → Text → Text → Op Project
  unfolding check_name new_project project_activity strip
  create_project user ws raw description = do
    reads (guard_workspace user ws (some Capability.project_create))
    let name = strip raw
    check_name ws name
    at ← now env
    i ← new_id env
    let p = new_project i ws name description none user at
    project_add p
    project_activity user p ActivityAction.project_created
    pure p

  -- `update`, with what it was given
  unfoldable pub update_project :
      ObjectId
      → ObjectId
      → (name description : Option Text) → (environment_version_id : Option ObjectId)
      → (inherit_workspace_environment : Bool) → (default_run_configuration_id : Option ObjectId)
      → Op Project
  unfolding renamed with_environment with_default project_activity
  update_project user project name description environment inherit default = do
    access ← reads (guard_project user project (some Capability.project_update))
    named ← renamed name access.project
    placed ← with_environment inherit environment (described description named)
    chosen ← with_default default placed
    at ← now env
    let p = record chosen { updated_at = at }
    project_update p
    project_activity user p ActivityAction.project_updated
    pure p

  unfoldable pub set_status : ObjectId → ObjectId → ProjectStatus → Op Project
  set_status user project status = do
    access ← reads (guard_project user project (some Capability.project_update))
    at ← now env
    let p = record access.project { status = status; updated_at = at }
    project_update p
    pure p
