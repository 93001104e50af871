-- ===== src/Projects/Fork.antt =====
-- `fork` of application/project_service.py: a new project from a version of another.
use workspace.Base.{
  Option, some, List, [], ◌∷◌, ◌++◌, Text, text, or_else, strip, ◌>>=◌, ◌>>◌, pure, reads, gets,
  modify,
}
use workspace.Domain.Errors.{ObjectId}
use workspace.Domain.Enums.{ActivityAction}
use workspace.Domain.Capabilities.{Capability}
use workspace.Domain.Models.{Time, Project, ProjectVersion, RunConfiguration, ForkRelation}
use workspace.Store.{Env, Op, new_id, now}
use workspace.Store.Projects.{project_add, version_add}
use workspace.Store.Configurations.{
  configuration_add, configuration_list_for_project, relation_add, relation_get_for_project,
}
use workspace.Access.{guard_workspace, guard_project}
use workspace.Projects.Settings.{check_name, new_project, project_activity}
use workspace.Projects.Versions.{label, get_version, upsert_entries}

-- What the first version of the new project says.
unfoldable pub fork_message : Project → ProjectVersion → Text
unfolding label
fork_message source v = text "Fork 自 " ++ source.name ++ text " 的 " ++ label v

module _ (env : Env) where
  -- The source's configurations, under new identifiers.
  unfoldable pub copy_configurations : ObjectId → List RunConfiguration → Op (Unit {0})
  copy_configurations project [] = pure tt
  copy_configurations project (c ∷ cs) = do
    i ← new_id env
    configuration_add (record c { id = i; project_id = project })
    copy_configurations project cs

  -- The relation names where the content came from.
  unfoldable pub fork_relation :
      ObjectId → Project → ProjectVersion → ObjectId → ObjectId → Time → Op (Unit {0})
  unfolding label
  fork_relation user source v source_workspace project at = do
    i ← new_id env
    relation_add (record {
      id = i;
      project_id = project;
      source_project_id = v.project_id;
      source_version_id = v.id;
      source_workspace_id = source_workspace;
      source_project_name = source.name;
      source_version_label = label v;
      created_by = user;
      created_at = at;
    })

  -- The first version of the new project, with the source version's files.
  unfoldable pub fork_version :
      ObjectId → Project → ProjectVersion → ObjectId → Time → Op (Unit {0})
  unfolding fork_message
  fork_version user source v project at = do
    i ← new_id env
    version_add (record {
      id = i;
      project_id = project;
      sequence = 1;
      message = fork_message source v;
      files = v.files;
      created_by = user;
      created_at = at;
    })

  unfoldable pub fork : ObjectId → ObjectId → ObjectId → Text → Text → Op Project
  unfolding get_version check_name new_project upsert_entries fork_version copy_configurations
      fork_relation project_activity strip
  fork user version ws raw description = do
    v ← get_version user version
    source ← reads (guard_project user v.project_id (some Capability.project_view))
    target ← reads (guard_workspace user ws (some Capability.project_create))
    let name = strip (or_else raw source.project.name)
    check_name ws name
    at ← now env
    i ← new_id env
    let p =
        new_project i ws name (or_else description source.project.description)
          source.project.environment_version_id user at
    project_add p
    modify (upsert_entries i at v.files)
    fork_version user source.project v i at
    configurations ← gets (configuration_list_for_project v.project_id)
    copy_configurations i configurations
    fork_relation user source.project v source.space.id i at
    project_activity env user (record p { workspace_id = target.space.id })
        ActivityAction.project_forked
    pure p

unfoldable pub fork_source : ObjectId → ObjectId → Op (Option ForkRelation)
fork_source user project = do
  reads (guard_project user project (some Capability.project_view))
  gets (relation_get_for_project project)
