-- ===== src/Projects/Versions.antt =====
-- The versions of a project in application/project_service.py: look, compare, save and restore.
use workspace.Base.{
  ◌==◌, Bool, false, not, Option, none, some, List, [], ◌∷◌, ◌++◌, Text, text, text_eq, or_else,
  strip, decimal, find?, ◌>>=◌, ◌>>◌, pure, reads, gets, modify, raise_if,
}
use workspace.Domain.Errors.{
  ObjectId, validation_failed, conflict_error, Violation, Conflict, Kind, by_id, by_text,
}
use workspace.Domain.Enums.{ChangeKind, ActivityAction, TargetType}
use workspace.Domain.Capabilities.{Capability}
use workspace.Domain.Models.{Time, Project, ProjectFile, ProjectVersion, ProjectVersionFile}
use workspace.Store.{Env, World, Op, new_id, now, or_missing}
use workspace.Store.Projects.{
  file_list_for_project, sort_by_path, file_upsert, file_delete, version_get, version_latest,
  next_sequence, version_add,
}
use workspace.Access.{hide_as, guard_project}
use workspace.Activities.{record_activity}
use workspace.Projects.Paths.{normalize_path}
use workspace.Projects.Ports.{BlobStorage, blob_call}
use workspace.Projects.Files.{has_none, touch}
use workspace.Projects.Diff.{Tree, diff, dict_eq, tree_of_files, tree_of_entries}

-- `ProjectVersion.label`
unfoldable pub label : ProjectVersion → Text
unfolding decimal
label v = text "v" ++ decimal v.sequence

unfoldable pub get_version : ObjectId → ObjectId → Op ProjectVersion
get_version user version = do
  found ← gets (version_get version)
  v ← or_missing Kind.project_version (by_id version) found
  reads (λ w. hide_as Kind.project_version version (guard_project user v.project_id none w))
  pure v

-- Without a version, nothing was there.
unfoldable pub baseline : Option ProjectVersion → Tree
unfolding tree_of_entries
baseline none = []
baseline (some v) = tree_of_entries v.files

unfoldable pub working_changes : ObjectId → ObjectId → Op (List (Text × ChangeKind))
unfolding baseline diff tree_of_files
working_changes user project = do
  reads (guard_project user project none)
  latest ← gets (version_latest project)
  files ← gets (file_list_for_project project)
  pure (diff (baseline latest) (tree_of_files files))

-- `latest is not None` and its content is the current one
unfoldable pub is_saved : Option ProjectVersion → List ProjectFile → Bool
unfolding dict_eq tree_of_files tree_of_entries
is_saved none files = false
is_saved (some v) files = dict_eq (tree_of_entries v.files) (tree_of_files files)

unfoldable pub entries_of : List ProjectFile → List ProjectVersionFile
entries_of [] = []
entries_of (f ∷ fs) =
    record { path = f.path; size = f.size; content_hash = f.content_hash } ∷ entries_of fs

unfoldable pub restored_file : ObjectId → Time → ProjectVersionFile → ProjectFile
restored_file project at entry = record {
  project_id = project;
  path = entry.path;
  size = entry.size;
  content_hash = entry.content_hash;
  updated_at = at;
}

unfoldable pub delete_each : ObjectId → List ProjectFile → World → World
delete_each project [] w = w
delete_each project (f ∷ fs) w = delete_each project fs (file_delete project f.path w)

unfoldable pub upsert_entries : ObjectId → Time → List ProjectVersionFile → World → World
unfolding restored_file
upsert_entries project at [] w = w
upsert_entries project at (e ∷ es) w =
    upsert_entries project at es (file_upsert (restored_file project at e) w)

unfoldable pub restored_files : ObjectId → Time → List ProjectVersionFile → List ProjectFile
unfolding restored_file
restored_files project at [] = []
restored_files project at (e ∷ es) = restored_file project at e ∷ restored_files project at es

unfoldable pub diff_versions : ObjectId → ObjectId → ObjectId → Op (List (Text × ChangeKind))
unfolding get_version diff tree_of_entries
diff_versions user base_version target_version = do
  base ← get_version user base_version
  target ← get_version user target_version
  raise_if (not (base.project_id == target.project_id))
      (validation_failed Violation.different_projects)
  pure (diff (tree_of_entries base.files) (tree_of_entries target.files))

unfoldable pub read_version_file : BlobStorage → ObjectId → ObjectId → Text → Op Text
unfolding get_version
read_version_file storage user version path = do
  v ← get_version user version
  normalized ← reads (λ _. normalize_path path)
  let found = find? (λ e. text_eq e.path normalized) v.files
  entry ← or_missing Kind.file (by_text normalized) found
  blob_call (λ n. storage.read_blob n entry.content_hash)

module _ (env : Env) where
  -- What both changes of the versions report.
  unfoldable pub version_activity :
      ObjectId → Project → ActivityAction → ProjectVersion → Op (Unit {0})
  unfolding label
  version_activity user p action v = record_activity env user (record {
    workspace_id = p.workspace_id;
    project_id = some v.project_id;
    action = action;
    target_type = TargetType.project_version;
    target_id = v.id;
    target_name = label v;
  })

  unfoldable pub save_version : ObjectId → ObjectId → Text → Op ProjectVersion
  unfolding is_saved entries_of strip touch version_activity
  save_version user project message = do
    access ← reads (guard_project user project (some Capability.project_content_write))
    files ← gets (file_list_for_project project)
    raise_if (has_none files) (validation_failed Violation.no_files)
    latest ← gets (version_latest project)
    raise_if (is_saved latest files) (conflict_error Conflict.nothing_to_save)
    i ← new_id env
    sequence ← gets (next_sequence project)
    at ← now env
    let v : ProjectVersion = record {
      id = i;
      project_id = project;
      sequence = sequence;
      message = or_else (strip message) (text "保存版本");
      files = entries_of (sort_by_path files);
      created_by = user;
      created_at = at;
    }
    version_add v
    touch env access.project
    version_activity user access.project ActivityAction.version_saved v
    pure v

  -- The files are deleted and the version's put in their place.
  unfoldable pub restore_files :
      ObjectId → ProjectVersion → Project → List ProjectFile → Op (List ProjectFile)
  unfolding delete_each upsert_entries restored_files touch version_activity
  restore_files user v p files = do
    modify (delete_each v.project_id files)
    at ← now env
    modify (upsert_entries v.project_id at v.files)
    touch env p
    version_activity user p ActivityAction.version_restored v
    pure (restored_files v.project_id at v.files)

  unfoldable pub restore_found : ObjectId → ProjectVersion → Op (List ProjectFile)
  unfolding restore_files
  restore_found user v = do
    access ← reads (guard_project user v.project_id (some Capability.project_content_write))
    files ← gets (file_list_for_project v.project_id)
    restore_files user v access.project files

  unfoldable pub restore_version : ObjectId → ObjectId → Op (List ProjectFile)
  unfolding get_version restore_found
  restore_version user version = do v ← get_version user version; restore_found user v
