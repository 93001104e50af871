-- ===== src/Domain/Snapshot.antt =====
-- domain/run_snapshot.py: the immutable facts of a run. Every construction checks that the working
-- directory stays inside the run's directory.
pub mod Laws
use workspace.Base.{
  ℕ, Bool, true, false, ◌||◌, Option, List, [], ◌∷◌, Text, text, text_eq, starts_with, any, split,
  replace_char, if◌then◌else◌, Result, ok, err,
}
use workspace.Domain.Errors.{ObjectId, DomainError, validation_failed, Violation}
use workspace.Domain.Compute.{ComputeRequest, ResolvedSchedulerConfiguration}
use workspace.Domain.Models.{Time, InputBinding, ArtifactCollectionRule}

pub record RunSnapshot : Type 0 where
  pub id : ObjectId
  pub project_id : ObjectId
  pub project_version_id : ObjectId
  pub source_run_configuration_id : Option ObjectId
  pub working_directory : Text
  pub command : Text
  pub environment_version_id : ObjectId
  pub environment_image : Text
  pub environment_setup_command : Text
  pub env_literals : List (Text × Text)
  pub env_secret_refs : List (Text × Text)
  pub input_bindings : List InputBinding
  pub compute_plan_id : ObjectId
  pub compute_request : ComputeRequest
  pub scheduler : ResolvedSchedulerConfiguration
  pub artifact_rules : List ArtifactCollectionRule
  pub created_by : ObjectId
  pub created_at : Time

-- `d in {"", "."}`
abbrev pub is_root_directory : Text → Bool
is_root_directory d = text_eq d [] || text_eq d (text ".")

-- `".." in d.replace("\\", "/").split("/")`
unfoldable pub mentions_parent : Text → Bool
mentions_parent d = any (text_eq (text "..")) (split b'/' (replace_char b'\\' b'/' d))

-- `RunSnapshot.__post_init__`, through which `build_snapshot` goes.
unfoldable pub build_snapshot : RunSnapshot → Result DomainError RunSnapshot
build_snapshot s =
    if is_root_directory s.working_directory
    then ok s
    else if starts_with s.working_directory (text "/")
    then err (validation_failed Violation.absolute_directory)
    else if mentions_parent s.working_directory
    then err (validation_failed Violation.directory_escapes)
    else ok s
