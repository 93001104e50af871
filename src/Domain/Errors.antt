-- ===== src/Domain/Errors.antt =====
-- domain/errors.py. A message is the data that the source formats into it.
use workspace.Base.{ℕ, ℤ, Text, List}
use workspace.Domain.Enums.{WorkspaceRole, RunStatus}
use workspace.Domain.Capabilities.{Capability}

-- Identifiers are made by `new_id` and compared: they are never empty, so a number stands for one.
abbrev pub ObjectId : Type 0
ObjectId = ℕ

-- The kinds of object that `ObjectNotFound` is raised for.
pub data Kind : Type 0 where
  workspace_kind personal_workspace user membership invitation : Kind
  project project_version environment_version run_configuration compute_plan : Kind
  run run_snapshot artifact artifact_content file file_or_directory blob : Kind

pub data Identifier : Type 0 where
  by_id : ObjectId → Identifier
  by_text : Text → Identifier
  unnamed : Identifier

pub data Denial : Type 0 where
  lacks : WorkspaceRole → Capability → Denial
  owner_leaves : Denial

pub data Limit : Type 0 where
  nodes cpus memory_mb gpus time_limit_minutes : Limit

-- A reason that blocks a submission.
pub data Problem : Type 0 where
  over_limit : Limit → ℤ → ℤ → Problem
  no_version no_environment environment_missing environment_unavailable : Problem
  plan_missing no_entitlement entitlement_expired empty_command : Problem
  concurrency_reached : ℕ → ℤ → Problem
  variable_missing secret_missing : Text → Text → Problem
  input_missing input_cleaned : Text → Problem
  source_version_missing source_environment_missing source_plan_missing : Problem
  source_entitlement_missing : Problem

pub data Violation : Type 0 where
  below_minimum : Limit → Violation
  over_limits : List Problem → Violation
  bad_page bad_page_size : Violation
  empty_path path_escapes : Violation
  empty_name empty_command empty_secret : Violation
  absolute_directory directory_escapes : Violation
  same_path into_itself : Violation
  no_files different_projects file_too_large : Violation
  bad_env_name : Text → Violation
  not_an_artifact : Violation

pub data Conflict : Type 0 where
  personal_has_no_members assign_owner already_member owner_removed owner_role : Conflict
  already_owner personal_stays : Conflict
  duplicate_key : Conflict
  run_is_terminal : RunStatus → Conflict
  key_of_other_endpoint key_in_progress key_of_other_project key_of_other_run : Conflict
  name_taken nothing_to_save : Conflict
  access_path_twice rule_path_twice : Text → Conflict

pub data DomainError : Type 0 where
  object_not_found : Kind → Identifier → DomainError
  permission_denied : Denial → DomainError
  validation_failed : Violation → DomainError
  conflict_error : Conflict → DomainError
  preflight_rejected : List Problem → DomainError
  scheduler_error : Text → DomainError
  -- an exception that is no `DomainError`, such as `IntegrityError` or a failed `assert`
  other_exception : DomainError
