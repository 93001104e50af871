-- ===== src/Tests/Projects.antt =====
-- The paths, files and versions of application/project_service.py at the small store.
use workspace.Base.{
  ==_refl, ℕ, ◌≡◌, refl, ◌↔◌, text_leb, sym, List, true, none, some, [], ◌∷◌, Text, text, Result,
  ok, err, arith, ◌>>=◌, strip, decimal, dict_get,
}
use workspace.Domain.Enums.{ChangeKind, WorkspaceRole}
use workspace.Domain.Errors.{DomainError, validation_failed, Violation}
use workspace.Domain.Capabilities.{capabilities_of}
use workspace.Domain.Models.{ProjectFile, ProjectVersion}
use workspace.Store.{World}
use workspace.Store.Members.{membership_get, workspace_get, user_get}
use workspace.Store.Projects.{
  project_get, file_get, file_upsert, file_delete, file_delete_under, file_list_for_project,
  project_update, write_project, version_get, version_latest, next_sequence, version_add,
}
use workspace.Access.{ProjectAccess, guard_project}
use workspace.Activities.{record_activity}
use workspace.Projects.Paths.{normalize_path}
use workspace.Projects.Paths.Names.{IsPath, normalize_path-IsPath}
use workspace.Projects.Paths.Fixed.{normalize_path-fixed}
use workspace.Projects.Ports.{BlobStorage, blob_call}
use workspace.Projects.Files.{write_file, read_file, delete_path, move_path, move_each}
use workspace.Projects.Diff.{Tree, diff, dict_eq, sorted_paths}
use workspace.Projects.Diff.Laws.{diff-dict_get, diff_iff, expected}
use workspace.Projects.Versions.{save_version, restore_version}
use workspace.Projects.Contained.{IsContained}
use workspace.Projects.Contained.Keyed.{IsKeyed, OnePerPath}
use workspace.Projects.Steps.{
  ProjectStep, ProjectHistory, history-IsContained, history-version_get, history-IsKeyed,
}
use workspace.Projects.Trees.{content_at}
use workspace.Projects.Saved.{save_restore}
use workspace.Projects.Written.{write_read}
use workspace.Projects.Moved.Result.{move_path-IsMoved}
use workspace.Projects.Moved.{IsMoved}
use workspace.Projects.Deleted.{delete_path-IsDeleted, IsDeleted}
use workspace.Tests.Data.{lower, env, project, team, store, world_of}

-- A storage that keeps everything under its own text.
abbrev storage : BlobStorage
storage = record { write_blob = λ n content. ok content; read_blob = λ n h. ok h }

abbrev readme : ProjectFile
readme = record {
  project_id = 20;
  path = text "a/x";
  size = 2;
  content_hash = text "hi";
  updated_at = 0;
}

abbrev file_store : World
file_store = record store { project_files = readme ∷ [] }

normalized : normalize_path (text " /a/./b/../x ") ≡ ok (text "a/x")
unfolding normalize_path
normalized = refl

climbing : normalize_path (text "a/../../x") ≡ err (validation_failed Violation.path_escapes)
unfolding normalize_path
climbing = refl

normalize_path-IsPath_example : IsPath (text "a/x")
normalize_path-IsPath_example = normalize_path-IsPath (text " /a/./b/../x ") (text "a/x") normalized

stripped : strip (text "a/x") ≡ text "a/x"
unfolding strip
stripped = refl

normalize_path-fixed_example : normalize_path (text "a/x") ≡ ok (text "a/x")
normalize_path-fixed_example =
    normalize_path-fixed (text "a/x")
      (normalize_path-IsPath (text " /a/./b/../x ") (text "a/x") normalized) stripped

one_file : OnePerPath file_store.project_files
one_file project path = ground arith

file_store-IsContained : IsContained file_store
file_store-IsContained = record {
  files = (normalize_path-IsPath (text " /a/./b/../x ") (text "a/x") normalized, tt);
  versions = tt;
}

file_store-IsKeyed : IsKeyed file_store
file_store-IsKeyed = record { contained = file_store-IsContained; one = one_file }

-- The member of the workspace writes a file.
abbrev write_result : Result DomainError (ProjectFile × World)
unfolding ◌>>=◌ write_file guard_project
write_result = write_file env storage 10 2 20 (text "b") (text "yo") file_store

abbrev file_of : Result DomainError (ProjectFile × World) → ProjectFile
file_of (ok r) = r.0
file_of (err e) = readme

write_returns :
    write_file env storage 10 2 20 (text "b") (text "yo") file_store
    ≡ ok (file_of write_result, world_of write_result)
unfolding ◌>>=◌ write_file guard_project write_result project_get workspace_get membership_get
    capabilities_of normalize_path blob_call file_upsert write_project project_update
write_returns = refl

history-IsContained_example : IsContained (world_of write_result)
history-IsContained_example =
    history-IsContained env storage 10 file_store (world_of write_result)
      (ProjectHistory.next ProjectHistory.start (
        ProjectStep.writes 2 20 (text "b") (text "yo") (file_of write_result)
          (world_of write_result) write_returns))
      file_store-IsContained

abbrev access_of : Result DomainError ProjectAccess → ProjectAccess
access_of (ok a) = a
access_of (err e) = record { project = project; space = team; role = WorkspaceRole.viewer }

abbrev seen : Result DomainError ProjectAccess
unfolding guard_project
seen = guard_project 1 20 none (world_of write_result)

seen_returns : guard_project 1 20 none (world_of write_result) ≡ ok (access_of seen)
unfolding guard_project write_result seen project_get workspace_get membership_get capabilities_of
    ◌>>=◌ write_file normalize_path blob_call file_upsert write_project project_update
seen_returns = refl

write_read_example :
    (w'' : World) × (read_file env storage 1 20 (text "b") (world_of write_result)
      ≡ ok (text "yo", w''))
write_read_example =
    write_read env storage 10 2 1 20 (text "b") (text "yo") (file_of write_result) file_store
      (world_of write_result) (access_of seen) (λ n m h e. sym e) write_returns seen_returns

-- It is deleted again.
abbrev delete_result : Result DomainError (ℕ × World)
unfolding ◌>>=◌ delete_path guard_project
delete_result = delete_path env 2 20 (text "a") file_store

abbrev number_of : Result DomainError (ℕ × World) → ℕ
number_of (ok r) = r.0
number_of (err e) = 0

delete_returns :
    delete_path env 2 20 (text "a") file_store
    ≡ ok (number_of delete_result, world_of delete_result)
unfolding ◌>>=◌ delete_path guard_project delete_result project_get workspace_get membership_get
    capabilities_of normalize_path file_get file_delete_under file_delete write_project
    project_update
delete_returns = refl

delete_path-IsDeleted_example :
    (path : Text) × (normalize_path (text "a") ≡ ok path)
    × IsDeleted env.like 20 file_store path (number_of delete_result) (world_of delete_result)
delete_path-IsDeleted_example =
    delete_path-IsDeleted env (λ c. ==_refl (lower c)) 2 20 (text "a") (number_of delete_result)
      file_store (world_of delete_result) delete_returns

-- Where LIKE takes the two cases of a letter for one, so does the deletion of a directory.
other_case_deleted : number_of (delete_path env 2 20 (text "A") file_store) ≡ 1
unfolding ◌>>=◌ delete_path guard_project project_get workspace_get membership_get capabilities_of
    normalize_path file_get file_delete_under write_project project_update
other_case_deleted = refl

-- A directory is renamed.
abbrev files_of : Result DomainError (List ProjectFile × World) → List ProjectFile
files_of (ok r) = r.0
files_of (err e) = []

abbrev move_result : Result DomainError (List ProjectFile × World)
unfolding ◌>>=◌ move_path guard_project
move_result = move_path env 2 20 (text "a") (text "c") file_store

move_returns :
    move_path env 2 20 (text "a") (text "c") file_store
    ≡ ok (files_of move_result, world_of move_result)
unfolding ◌>>=◌ move_path guard_project move_result project_get workspace_get membership_get
    capabilities_of normalize_path file_list_for_project file_upsert file_delete write_project
    project_update text_leb move_each
move_returns = refl

source_normalized : normalize_path (text "a") ≡ ok (text "a")
unfolding normalize_path
source_normalized = refl

destination_normalized : normalize_path (text "c") ≡ ok (text "c")
unfolding normalize_path
destination_normalized = refl

readme_found : file_get 20 (text "a/x") file_store ≡ some readme
unfolding file_get
readme_found = refl

move_path-IsMoved_example : IsMoved 20 (text "a") (text "c") readme (world_of move_result)
move_path-IsMoved_example =
    move_path-IsMoved env 2 20 (text "a") (text "c") (text "a") (text "c") readme file_store
      (world_of move_result) (files_of move_result) one_file source_normalized
      destination_normalized refl refl readme_found move_returns

-- A version is saved, a file written, and the version restored.
abbrev save_result : Result DomainError (ProjectVersion × World)
unfolding ◌>>=◌ save_version guard_project
save_result = save_version env 2 20 (text "first") file_store

abbrev version_of : Result DomainError (ProjectVersion × World) → ProjectVersion
version_of (ok r) = r.0
version_of (err e) = record {
  id = 0;
  project_id = 0;
  sequence = 0;
  message = [];
  files = [];
  created_by = 0;
  created_at = 0;
}

save_returns :
    save_version env 2 20 (text "first") file_store
    ≡ ok (version_of save_result, world_of save_result)
unfolding ◌>>=◌ save_version guard_project save_result project_get workspace_get membership_get
    capabilities_of file_list_for_project version_latest next_sequence version_add write_project
    project_update record_activity user_get strip decimal
save_returns = refl

abbrev changed_result : Result DomainError (ProjectFile × World)
unfolding ◌>>=◌ write_file guard_project
changed_result = write_file env storage 10 2 20 (text "a/x") (text "yo") (world_of save_result)

change_returns :
    write_file env storage 10 2 20 (text "a/x") (text "yo") (world_of save_result)
    ≡ ok (file_of changed_result, world_of changed_result)
unfolding ◌>>=◌ save_version save_result write_file guard_project changed_result project_get
    workspace_get membership_get capabilities_of file_list_for_project version_latest next_sequence
    version_add write_project project_update record_activity user_get strip decimal normalize_path
    blob_call file_upsert
change_returns = refl

changes : ProjectHistory env storage 10 (world_of save_result) (world_of changed_result)
changes = ProjectHistory.next ProjectHistory.start (
    ProjectStep.writes 2 20 (text "a/x") (text "yo") (file_of changed_result)
      (world_of changed_result) change_returns)

abbrev restore_result : Result DomainError (List ProjectFile × World)
unfolding ◌>>=◌ restore_version guard_project
restore_result = restore_version env 1 (version_of save_result).id (world_of changed_result)

restore_returns :
    restore_version env 1 (version_of save_result).id (world_of changed_result)
    ≡ ok (files_of restore_result, world_of restore_result)
unfolding ◌>>=◌ save_version save_result write_file guard_project changed_result project_get
    workspace_get membership_get capabilities_of file_list_for_project version_latest next_sequence
    version_add write_project project_update record_activity user_get strip decimal normalize_path
    blob_call file_upsert restore_version restore_result file_delete version_get
restore_returns = refl

save_restore_example :
    content_at 20 (world_of restore_result) (text "a/x") ≡ content_at 20 file_store (text "a/x")
save_restore_example =
    save_restore env storage 10 2 20 (text "first") (version_of save_result) file_store
      (world_of save_result) (world_of changed_result) (world_of restore_result) 1
      (files_of restore_result) file_store-IsKeyed save_returns changes restore_returns (text "a/x")

version_stored :
    version_get (version_of save_result).id (world_of save_result) ≡ some (version_of save_result)
unfolding ◌>>=◌ save_version guard_project save_result project_get workspace_get membership_get
    capabilities_of file_list_for_project version_latest next_sequence version_add write_project
    project_update record_activity user_get strip decimal version_get
version_stored = refl

history-version_get_example :
    version_get (version_of save_result).id (world_of changed_result)
    ≡ some (version_of save_result)
history-version_get_example =
    history-version_get env storage 10 (version_of save_result).id (version_of save_result)
      (world_of save_result) (world_of changed_result) changes
      (history-IsContained env storage 10 file_store (world_of save_result)
        (ProjectHistory.next ProjectHistory.start (
          ProjectStep.saves 2 20 (text "first") (version_of save_result) (world_of save_result)
            save_returns))
        file_store-IsContained)
      version_stored

history-IsKeyed_example : IsKeyed (world_of write_result)
history-IsKeyed_example =
    history-IsKeyed env storage 10 file_store (world_of write_result)
      (ProjectHistory.next ProjectHistory.start (
        ProjectStep.writes 2 20 (text "b") (text "yo") (file_of write_result)
          (world_of write_result) write_returns))
      file_store-IsKeyed

abbrev left_tree : Tree
left_tree = (text "a", text "1") ∷ (text "b", text "2") ∷ []

abbrev right_tree : Tree
right_tree = (text "b", text "3") ∷ (text "c", text "4") ∷ []

diff_run :
    diff left_tree right_tree
    ≡ (text "a", ChangeKind.removed)
      ∷ (text "b", ChangeKind.modified)
      ∷ (text "c", ChangeKind.added)
      ∷ []
unfolding diff sorted_paths dict_get text_leb
diff_run = refl

diff-dict_get_example :
    dict_get (text "b") (diff left_tree right_tree)
    ≡ expected (dict_get (text "b") left_tree) (dict_get (text "b") right_tree)
diff-dict_get_example = diff-dict_get left_tree right_tree (text "b")

diff_iff_example : (diff left_tree right_tree ≡ []) ↔ (dict_eq left_tree right_tree ≡ true)
diff_iff_example = diff_iff left_tree right_tree

-- A directory is moved onto one that holds it: what the first file held is nowhere afterwards.
abbrev nested_store : World
nested_store = record store {
  project_files =
      record readme { path = text "a/a/a/x"; content_hash = text "lost" }
      ∷ record readme { path = text "a/a/x"; content_hash = text "kept" }
      ∷ [];
}

abbrev digests : List ProjectFile → Tree
digests [] = []
digests (f ∷ fs) = (f.path, f.content_hash) ∷ digests fs

abbrev files_left : Result DomainError (List ProjectFile × World) → Tree
files_left (ok r) = digests r.1.project_files
files_left (err e) = []

content_lost :
    files_left (move_path env 2 20 (text "a/a") (text "a") nested_store)
    ≡ (text "a/x", text "kept") ∷ []
unfolding ◌>>=◌ move_path guard_project project_get workspace_get membership_get capabilities_of
    normalize_path file_list_for_project file_upsert file_delete write_project project_update
    text_leb move_each
content_lost = refl
