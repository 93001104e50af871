-- ===== src/Store/Projects.antt =====
-- ProjectRepositoryImpl, ProjectFileRepositoryImpl, ProjectVersionRepositoryImpl and
-- RunConfigurationRepositoryImpl of infrastructure/db/repositories.py, over their tables.
pub mod FileLaws
use workspace.Base.{
  ℕ, ◌+◌, ◌==◌, ltb, Bool, true, false, ◌&&◌, ◌||◌, Option, none, some, List, ◌∷◌, [], ◌++◌, Text,
  text_eq, text_leb, find?, any, filter, count, update_first, not, if◌then◌else◌, Result, ok, err,
  modify,
}
use workspace.Domain.Errors.{ObjectId, DomainError, other_exception}
use workspace.Domain.Models.{
  Project, ProjectFile, ProjectVersion, ProjectVersionFile, RunConfiguration, EnvironmentVersion,
}
use workspace.Domain.Compute.{ComputePlan}
use workspace.Store.{World, Op, insert_row}

unfoldable pub project_get : ObjectId → World → Option Project
project_get i w = find? (λ r. r.id == i) w.projects

unfoldable pub name_exists : ObjectId → Text → World → Bool
name_exists ws name w =
    ltb 0 (count (λ r. (r.workspace_id == ws) && text_eq r.name name) w.projects)

unfoldable pub with_projects :
    World → Result DomainError (List Project) → Result DomainError (Unit {0} × World)
with_projects w (ok rows) = ok (tt, record w { projects = rows })
with_projects w (err e) = err e

-- A name is unique in its workspace.
unfoldable pub project_add : Project → Op (Unit {0})
unfolding with_projects insert_row
project_add p w = with_projects w (
    insert_row (λ r. r.id == p.id)
      (λ r. (r.workspace_id == p.workspace_id) && text_eq r.name p.name) p w.projects)

unfoldable pub write_project : Project → World → World
write_project p w = record w {
  projects =
      update_first (λ r. r.id == p.id)
        (λ r. record r {
          name = p.name;
          description = p.description;
          status = p.status;
          environment_version_id = p.environment_version_id;
          default_run_configuration_id = p.default_run_configuration_id;
          updated_at = p.updated_at;
        })
        w.projects;
}

unfoldable pub project_update : Project → Op (Unit {0})
project_update p = modify (write_project p)

abbrev pub is_file_at : ObjectId → Text → ProjectFile → Bool
is_file_at project path f = (f.project_id == project) && text_eq f.path path

unfoldable pub file_get : ObjectId → Text → World → Option ProjectFile
file_get project path w = find? (is_file_at project path) w.project_files

-- Puts a row in its place by the order of the paths.
unfoldable pub insert_by_path : ProjectFile → List ProjectFile → List ProjectFile
insert_by_path f [] = f ∷ []
insert_by_path f (g ∷ gs) = if text_leb f.path g.path then f ∷ g ∷ gs else g ∷ insert_by_path f gs

unfoldable pub sort_by_path : List ProjectFile → List ProjectFile
unfolding insert_by_path
sort_by_path [] = []
sort_by_path (f ∷ fs) = insert_by_path f (sort_by_path fs)

-- `WHERE project_id = … ORDER BY path`
unfoldable pub file_list_for_project : ObjectId → World → List ProjectFile
unfolding sort_by_path
file_list_for_project project w =
    sort_by_path (filter (λ f. f.project_id == project) w.project_files)

unfoldable pub upsert_rows : ProjectFile → List ProjectFile → List ProjectFile
upsert_rows f rows =
    if any (is_file_at f.project_id f.path) rows
    then update_first (is_file_at f.project_id f.path)
        (λ r. record r { size = f.size; content_hash = f.content_hash; updated_at = f.updated_at })
        rows
    else rows ++ f ∷ []

unfoldable pub file_upsert : ProjectFile → World → World
unfolding upsert_rows
file_upsert f w = record w { project_files = upsert_rows f w.project_files }

unfoldable pub file_delete : ObjectId → Text → World → World
file_delete project path w = record w {
  project_files = filter (λ f. not (is_file_at project path f)) w.project_files;
}

-- `s LIKE 'prefix%'` with the wildcards of the prefix escaped, where `same` compares characters.
abbrev pub like_prefix : (ℕ → ℕ → Bool) → Text → Text → Bool
like_prefix same s [] = true
like_prefix same [] (d ∷ prefix) = false
like_prefix same (c ∷ s) (d ∷ prefix) = same c d && like_prefix same s prefix

-- The rows of `DELETE … WHERE project_id = … AND path LIKE 'prefix%'`.
abbrev pub is_file_under : (ℕ → ℕ → Bool) → ObjectId → Text → ProjectFile → Bool
is_file_under same project prefix f = (f.project_id == project) && like_prefix same f.path prefix

unfoldable pub file_delete_under : (ℕ → ℕ → Bool) → ObjectId → Text → World → ℕ × World
file_delete_under same project prefix w = (
  count (is_file_under same project prefix) w.project_files,
  record w {
    project_files = filter (λ f. not (is_file_under same project prefix f)) w.project_files;
  },
)

unfoldable pub version_get : ObjectId → World → Option ProjectVersion
version_get i w = find? (λ r. r.id == i) w.project_versions

-- The row of the greatest sequence; the first of equals.
unfoldable pub later : ProjectVersion → Option ProjectVersion → Option ProjectVersion
later v none = some v
later v (some u) = if ltb v.sequence u.sequence then some u else some v

unfoldable pub latest_of : ObjectId → List ProjectVersion → Option ProjectVersion
unfolding later
latest_of project [] = none
latest_of project (v ∷ vs) =
    let rest = latest_of project vs in if v.project_id == project then later v rest else rest

-- `ORDER BY sequence DESC LIMIT 1`
unfoldable pub version_latest : ObjectId → World → Option ProjectVersion
unfolding latest_of
version_latest project w = latest_of project w.project_versions

unfoldable pub sequence_of : Option ProjectVersion → ℕ
sequence_of none = 0
sequence_of (some v) = v.sequence

-- `max(sequence) + 1`, from 1
unfoldable pub next_sequence : ObjectId → World → ℕ
unfolding sequence_of version_latest
next_sequence project w = sequence_of (version_latest project w) + 1

unfoldable pub with_versions :
    World → Result DomainError (List ProjectVersion) → Result DomainError (Unit {0} × World)
with_versions w (ok rows) = ok (tt, record w { project_versions = rows })
with_versions w (err e) = err e

-- Two entries of one path have the same key.
unfoldable pub repeats_path : List ProjectVersionFile → Bool
repeats_path [] = false
repeats_path (e ∷ es) = any (λ x. text_eq x.path e.path) es || repeats_path es

-- The entries are added after the version's row.
unfoldable pub with_entries :
    List ProjectVersionFile
    → Result DomainError (List ProjectVersion)
    → Result DomainError (List ProjectVersion)
unfolding repeats_path
with_entries entries (ok rows) = if repeats_path entries then err other_exception else ok rows
with_entries entries (err e) = err e

-- A sequence number is unique in its project. No row is ever updated.
unfoldable pub version_add : ProjectVersion → Op (Unit {0})
unfolding with_versions with_entries insert_row
version_add v w = with_versions w (
    with_entries v.files (
      insert_row (λ r. r.id == v.id)
        (λ r. (r.project_id == v.project_id) && (r.sequence == v.sequence)) v w.project_versions))

unfoldable pub environment_version_get : ObjectId → World → Option EnvironmentVersion
environment_version_get i w = find? (λ r. r.id == i) w.environment_versions

unfoldable pub plan_get : ObjectId → World → Option ComputePlan
plan_get i w = find? (λ r. r.id == i) w.compute_plans

unfoldable pub configuration_get : ObjectId → World → Option RunConfiguration
configuration_get i w = find? (λ r. r.id == i) w.run_configurations
