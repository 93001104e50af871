-- ===== src/Projects/Files.antt =====
-- The files of a project in application/project_service.py: list, read, write, delete and move.
use workspace.Base.{
  ℕ, ◌==◌, ltb, Bool, true, false, ◌||◌, Option, none, some, List, [], ◌∷◌, ◌++◌, Text, text_eq,
  length, drop, filter, starts_with, ok, ◌>>=◌, ◌>>◌, pure, reads, gets, modify, raise_if,
}
use workspace.Domain.Errors.{
  ObjectId, object_not_found, validation_failed, Violation, Kind, by_text,
}
use workspace.Domain.Capabilities.{Capability}
use workspace.Domain.Models.{Time, Project, ProjectFile}
use workspace.Store.{Env, World, Op, now, or_missing}
use workspace.Store.Projects.{
  file_get, file_list_for_project, sort_by_path, file_upsert, file_delete, file_delete_under,
  project_update,
}
use workspace.Access.{guard_project}
use workspace.Projects.Paths.{slash, normalize_path}
use workspace.Projects.Ports.{BlobStorage, blob_call}

-- `path + "/"`
abbrev pub below : Text → Text
below path = path ++ slash ∷ []

-- `f.path == src or f.path.startswith(src + "/")`
abbrev pub is_at_or_below : Text → ProjectFile → Bool
is_at_or_below path f = text_eq f.path path || starts_with f.path (below path)

abbrev pub moved_file : ObjectId → Text → Text → Time → ProjectFile → ProjectFile
moved_file project src dst at f = record {
  project_id = project;
  path = dst ++ drop (length src) f.path;
  size = f.size;
  content_hash = f.content_hash;
  updated_at = at;
}

-- One file after the other, in the order of their old paths.
unfoldable pub move_each : ObjectId → Text → Text → Time → List ProjectFile → World → World
move_each project src dst at [] w = w
move_each project src dst at (f ∷ fs) w =
    move_each project src dst at fs
      (file_upsert (moved_file project src dst at f) (file_delete project f.path w))

abbrev pub moved_files : ObjectId → Text → Text → Time → List ProjectFile → List ProjectFile
moved_files project src dst at [] = []
moved_files project src dst at (f ∷ fs) =
    moved_file project src dst at f ∷ moved_files project src dst at fs

-- `not xs`
abbrev pub has_none : {A : Type 0} → List A → Bool
has_none [] = true
has_none (x ∷ xs) = false

-- `ProjectFileRepositoryImpl.delete_under` as a step of a use case.
abbrev pub delete_under : Env → ObjectId → Text → Op ℕ
delete_under env project path w = ok (file_delete_under env.like project path w)

module _ (env : Env) where
  -- `_touch`
  unfoldable pub touch : Project → Op (Unit {0})
  touch p = do at ← now env; project_update (record p { updated_at = at })

  unfoldable pub list_files : ObjectId → ObjectId → Op (List ProjectFile)
  list_files user project = do
    reads (guard_project user project none)
    gets (λ w. sort_by_path (file_list_for_project project w))

  unfoldable pub read_file : BlobStorage → ObjectId → ObjectId → Text → Op Text
  read_file storage user project path = do
    reads (guard_project user project none)
    normalized ← reads (λ _. normalize_path path)
    found ← gets (file_get project normalized)
    f ← or_missing Kind.file (by_text normalized) found
    blob_call (λ n. storage.read_blob n f.content_hash)

  unfoldable pub write_file :
      BlobStorage → (max_file_bytes : ℕ) → ObjectId → ObjectId → Text → Text → Op ProjectFile
  unfolding touch
  write_file storage max_file_bytes user project path content = do
    access ← reads (guard_project user project (some Capability.project_content_write))
    normalized ← reads (λ _. normalize_path path)
    raise_if (ltb max_file_bytes (length content)) (validation_failed Violation.file_too_large)
    content_hash ← blob_call (λ n. storage.write_blob n content)
    at ← now env
    let f : ProjectFile = record {
      project_id = project;
      path = normalized;
      size = length content;
      content_hash = content_hash;
      updated_at = at;
    }
    modify (file_upsert f)
    touch access.project
    pure f

  -- What is at the path is deleted; otherwise, what is below it.
  unfoldable pub delete_found : Project → ObjectId → Text → Option ProjectFile → Op ℕ
  unfolding touch
  delete_found p project normalized (some f) = do
    modify (file_delete project normalized)
    touch p
    pure 1
  delete_found p project normalized none = do
    removed ← delete_under env project (below normalized)
    raise_if (removed == 0) (object_not_found Kind.file_or_directory (by_text normalized))
    touch p
    pure removed

  unfoldable pub delete_path : ObjectId → ObjectId → Text → Op ℕ
  unfolding delete_found
  delete_path user project path = do
    access ← reads (guard_project user project (some Capability.project_content_write))
    normalized ← reads (λ _. normalize_path path)
    found ← gets (file_get project normalized)
    delete_found access.project project normalized found

  unfoldable pub move_path : ObjectId → ObjectId → Text → Text → Op (List ProjectFile)
  unfolding touch
  move_path user project source destination = do
    access ← reads (guard_project user project (some Capability.project_content_write))
    src ← reads (λ _. normalize_path source)
    dst ← reads (λ _. normalize_path destination)
    raise_if (text_eq src dst) (validation_failed Violation.same_path)
    raise_if (starts_with dst (below src)) (validation_failed Violation.into_itself)
    existing ← gets (file_list_for_project project)
    let matched = filter (is_at_or_below src) existing
    raise_if (has_none matched) (object_not_found Kind.file_or_directory (by_text src))
    at ← now env
    modify (move_each project src dst at matched)
    touch access.project
    pure (moved_files project src dst at matched)
