-- ===== src/Projects/Contained/Projects.antt =====
-- The calls on the project itself and `fork` in application/project_service.py, and a law on the tables
-- of files and versions.
use workspace.Base.{
  Bool, true, false, Option, none, some, List, [], ◌∷◌, Text, Ensures, skip_reads, skip_gets,
  follow, keep_then, keep_pure, after_raise_if, keep_raise_if, after_or_raise, after_modify,
}
use workspace.Domain.Errors.{ObjectId}
use workspace.Domain.Enums.{ProjectStatus}
use workspace.Domain.Models.{Time, Project, ProjectVersion, RunConfiguration}
use workspace.Store.{Env, World, Op}
use workspace.Projects.Settings.{
  check_name, renamed, with_environment, with_default, described, create_project, update_project,
  set_status, project_activity,
}
use workspace.Projects.Fork.{copy_configurations, fork_relation, fork_version, fork}
use workspace.Projects.Contained.{
  EntriesProper, TreeLaw, framed, version_add-Ensures, new_id-KeepsTrees, now-KeepsTrees,
  project_update-KeepsTrees, project_add-KeepsTrees, configuration_add-KeepsTrees,
  relation_add-KeepsTrees, record_activity-KeepsTrees,
}
use workspace.Projects.Contained.Calls.{after_get_version, upsert_entries-P}

module _ {P : World → Type 0} (law : TreeLaw P) where
  abbrev Keeps : {A : Type 0} → Op A → Type 0
  Keeps m = Ensures P m (λ _. P)

  check_name-Keeps : (ws : ObjectId) (name : Text) → Keeps (check_name ws name)
  unfolding check_name
  check_name-Keeps ws name =
      after_raise_if _ _ _ λ filled. skip_gets _ _ λ taken. keep_raise_if taken _

  renamed-Keeps : (name : Option Text) (p : Project) → Keeps (renamed name p)
  unfolding renamed
  renamed-Keeps none p = keep_pure p
  renamed-Keeps (some raw) p =
      after_raise_if _ _ _ λ filled. skip_gets _ _ λ taken. after_raise_if _ _ _ λ free. keep_pure _

  with_environment-Keeps :
      (inherit : Bool) (environment : Option ObjectId) (p : Project)
      → Keeps (with_environment inherit environment p)
  unfolding with_environment
  with_environment-Keeps true environment p = keep_pure _
  with_environment-Keeps false none p = keep_pure _
  with_environment-Keeps false (some i) p =
      skip_gets _ _ λ found. after_or_raise _ _ _ λ v e. keep_pure _

  with_default-Keeps : (default : Option ObjectId) (p : Project) → Keeps (with_default default p)
  unfolding with_default
  with_default-Keeps none p = keep_pure _
  with_default-Keeps (some i) p =
      skip_gets _ _ λ found. after_raise_if _ _ _ λ own. after_or_raise _ _ _ λ c e. keep_pure _

  pub create_project-Keeps :
      (env : Env) (user ws : ObjectId) (name description : Text)
      → Keeps (create_project env user ws name description)
  unfolding create_project project_activity
  create_project-Keeps env user ws name description = skip_reads _ _ λ access.
      keep_then _ _ (check_name-Keeps ws _) (
        follow _ _ (framed law (now-KeepsTrees env)) λ at.
          follow _ _ (framed law (new_id-KeepsTrees env)) λ i.
            keep_then _ _ (framed law (project_add-KeepsTrees _))
              (keep_then _ _ (framed law (record_activity-KeepsTrees env user _)) (keep_pure _)))

  pub update_project-Keeps :
      (env : Env) (user project : ObjectId) (name description : Option Text)
      (environment : Option ObjectId) (inherit : Bool) (default : Option ObjectId)
      → Keeps (update_project env user project name description environment inherit default)
  unfolding update_project project_activity
  update_project-Keeps env user project name description environment inherit default =
      skip_reads _ _ λ access. follow _ _ (renamed-Keeps name access.project) λ named.
        follow _ _ (with_environment-Keeps inherit environment (described description named))
          λ placed. follow _ _ (with_default-Keeps default placed) λ chosen.
            follow _ _ (framed law (now-KeepsTrees env)) λ at.
              keep_then _ _ (framed law (project_update-KeepsTrees _))
                (keep_then _ _ (framed law (record_activity-KeepsTrees env user _)) (keep_pure _))

  pub set_status-Keeps :
      (env : Env) (user project : ObjectId) (status : ProjectStatus)
      → Keeps (set_status env user project status)
  unfolding set_status
  set_status-Keeps env user project status = skip_reads _ _ λ access.
      follow _ _ (framed law (now-KeepsTrees env))
        λ at. keep_then _ _ (framed law (project_update-KeepsTrees _)) (keep_pure _)

  copy_configurations-Keeps :
      (env : Env) (project : ObjectId) (cs : List RunConfiguration)
      → Keeps (copy_configurations env project cs)
  unfolding copy_configurations
  copy_configurations-Keeps env project [] = keep_pure tt
  copy_configurations-Keeps env project (c ∷ cs) =
      follow _ _ (framed law (new_id-KeepsTrees env)) λ i.
        keep_then _ _ (framed law (configuration_add-KeepsTrees _))
          (copy_configurations-Keeps env project cs)

  fork_relation-Keeps :
      (env : Env) (user : ObjectId) (source : Project) (v : ProjectVersion)
      (source_workspace project : ObjectId) (at : Time)
      → Keeps (fork_relation env user source v source_workspace project at)
  unfolding fork_relation
  fork_relation-Keeps env user source v source_workspace project at =
      follow _ _ (framed law (new_id-KeepsTrees env)) λ i. framed law (relation_add-KeepsTrees _)

  fork_version-Keeps :
      (env : Env) (user : ObjectId) (source : Project) (v : ProjectVersion) (project : ObjectId)
      (at : Time)
      → EntriesProper v.files
      → Keeps (fork_version env user source v project at)
  unfolding fork_version
  fork_version-Keeps env user source v project at proper =
      follow _ _ (framed law (new_id-KeepsTrees env)) λ i. version_add-Ensures law _ proper

  pub fork-Keeps :
      (env : Env) (user version ws : ObjectId) (name description : Text)
      → Keeps (fork env user version ws name description)
  unfolding fork project_activity
  fork-Keeps env user version ws name description = after_get_version law user version _ λ v proper.
      skip_reads _ _ λ source. skip_reads _ _ λ target. keep_then _ _ (check_name-Keeps ws _) (
        follow _ _ (framed law (now-KeepsTrees env)) λ at.
          follow _ _ (framed law (new_id-KeepsTrees env)) λ i.
            keep_then _ _ (framed law (project_add-KeepsTrees _)) (
              after_modify _ _ (upsert_entries-P law i at v.files proper) (
                keep_then _ _ (fork_version-Keeps env user source.project v i at proper) (
                  skip_gets _ _ λ configurations.
                    keep_then _ _ (copy_configurations-Keeps env i configurations) (
                      keep_then _ _ (fork_relation-Keeps env user source.project v _ i at) (
                        keep_then _ _ (framed law (record_activity-KeepsTrees env user _))
                          (keep_pure _)))))))
