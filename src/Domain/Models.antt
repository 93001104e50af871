-- ===== src/Domain/Models.antt =====
-- domain/models.py, domain/run_snapshot.py and domain/ports/scheduler.py: the records that the
-- repositories store, and what is handed to the scheduler.
use workspace.Base.{◌⊎◌, ℕ, ℤ, Bool, true, false, Option, List, Text, is_some}
use workspace.Domain.Errors.{ObjectId}
use workspace.Domain.Compute.{ComputeRequest}
use workspace.Domain.Enums.{
  WorkspaceKind, WorkspaceRole, MembershipStatus, ProjectStatus, RunStatus, RunEventType,
  ArtifactStatus, InputSourceType, EnvValueKind, ActivityAction, TargetType, NotificationType,
  SchedulerState,
}

-- An instant, as the clock returns it.
abbrev pub Time : Type 0
Time = ℕ

pub record User : Type 0 where
  pub id : ObjectId
  pub username : Text
  pub display_name : Text

pub record Workspace : Type 0 where
  pub id : ObjectId
  pub kind : WorkspaceKind
  pub name : Text
  pub description : Text
  pub owner_id : ObjectId
  pub default_environment_version_id : Option ObjectId

abbrev pub kind_is_personal : WorkspaceKind → Bool
kind_is_personal WorkspaceKind.personal = true
kind_is_personal WorkspaceKind.collaborative = false

-- `Workspace.is_personal`
abbrev pub is_personal : Workspace → Bool
is_personal w = kind_is_personal w.kind

pub record Membership : Type 0 where
  pub id : ObjectId
  pub workspace_id : ObjectId
  pub user_id : ObjectId
  pub role : WorkspaceRole
  pub status : MembershipStatus

abbrev pub status_is_active : MembershipStatus → Bool
status_is_active MembershipStatus.active = true
status_is_active _ = false

-- `Membership.is_active`
abbrev pub is_active : Membership → Bool
is_active m = status_is_active m.status

pub record WorkspaceVariable : Type 0 where
  pub workspace_id : ObjectId
  pub name : Text
  pub value : Text

pub record WorkspaceSecret : Type 0 where
  pub workspace_id : ObjectId
  pub name : Text
  pub value : Text

pub record Project : Type 0 where
  pub id : ObjectId
  pub workspace_id : ObjectId
  pub name : Text
  pub description : Text
  pub status : ProjectStatus
  pub environment_version_id : Option ObjectId
  pub default_run_configuration_id : Option ObjectId
  pub created_by : ObjectId
  pub updated_at : Time

pub record ProjectFile : Type 0 where
  pub project_id : ObjectId
  pub path : Text
  pub size : ℕ
  pub content_hash : Text
  pub updated_at : Time

pub record ProjectVersionFile : Type 0 where
  pub path : Text
  pub size : ℕ
  pub content_hash : Text

pub record ProjectVersion : Type 0 where
  pub id : ObjectId
  pub project_id : ObjectId
  pub sequence : ℕ
  pub message : Text
  pub files : List ProjectVersionFile
  pub created_by : ObjectId
  pub created_at : Time

pub record EnvironmentVersion : Type 0 where
  pub id : ObjectId
  pub environment_id : ObjectId
  pub version : Text
  pub description : Text
  pub image : Text
  pub setup_command : Text
  pub available : Bool

-- `EnvValue` of domain/secrets.py
pub record EnvValue : Type 0 where
  pub kind : EnvValueKind
  pub value : Text

pub record InputBinding : Type 0 where
  pub source_type : InputSourceType
  pub source_id : ObjectId
  pub access_path : Text
  pub source_subpath : Text

pub record ArtifactCollectionRule : Type 0 where
  pub path : Text
  pub name : Text
  pub optional : Bool

pub record RunConfiguration : Type 0 where
  pub id : ObjectId
  pub project_id : ObjectId
  pub name : Text
  pub working_directory : Text
  pub command : Text
  pub environment_version_id : Option ObjectId
  pub environment_variables : List (Text × EnvValue)
  pub input_bindings : List InputBinding
  pub compute_plan_id : ObjectId
  pub compute_request : Option ComputeRequest
  pub artifact_rules : List ArtifactCollectionRule
  pub description : Text

pub record Run : Type 0 where
  pub id : ObjectId
  pub project_id : ObjectId
  pub workspace_id : ObjectId
  pub snapshot_id : ObjectId
  pub compute_plan_id : ObjectId
  pub source_run_configuration_id : Option ObjectId
  pub source_run_id : Option ObjectId
  pub name : Text
  pub status : RunStatus
  pub scheduler_job_id : Option Text
  pub exit_code : Option ℤ
  pub failure_reason : Text
  pub created_by : ObjectId
  pub created_at : Time
  pub submitted_at : Option Time
  pub started_at : Option Time
  pub finished_at : Option Time

pub record RunEvent : Type 0 where
  pub id : ObjectId
  pub run_id : ObjectId
  pub type : RunEventType
  pub created_at : Time

-- Which use case reserved an idempotency key.
pub data Endpoint : Type 0 where
  create_run rerun : Endpoint

pub record IdempotencyRecord : Type 0 where
  pub workspace_id : ObjectId
  pub key : Text
  pub endpoint : Endpoint
  pub run_id : Option ObjectId

pub record Artifact : Type 0 where
  pub id : ObjectId
  pub run_id : ObjectId
  pub project_id : ObjectId
  pub workspace_id : ObjectId
  pub name : Text
  pub source_path : Text
  pub size : ℕ
  pub file_count : ℕ
  pub content_hash : Text
  pub status : ArtifactStatus
  pub created_at : Time

abbrev pub artifact_status_is_available : ArtifactStatus → Bool
artifact_status_is_available ArtifactStatus.available = true
artifact_status_is_available ArtifactStatus.cleaned = false

-- `Artifact.is_available`
abbrev pub artifact_is_available : Artifact → Bool
artifact_is_available a = artifact_status_is_available a.status

pub record Activity : Type 0 where
  pub id : ObjectId
  pub workspace_id : ObjectId
  pub project_id : Option ObjectId
  pub actor_id : ObjectId
  -- the name, or the identifier of an actor who is not there
  pub actor_name : Text ⊎ ObjectId
  pub action : ActivityAction
  pub target_type : TargetType
  pub target_id : ObjectId
  pub target_name : Text
  pub created_at : Time

pub record Notification : Type 0 where
  pub id : ObjectId
  pub recipient_id : ObjectId
  pub type : NotificationType
  pub body : Text
  pub created_at : Time
  pub workspace_id : Option ObjectId
  pub target : Option (TargetType × ObjectId)
  pub mandatory : Bool
  pub read_at : Option Time

-- `Notification.is_read`
abbrev pub is_read : Notification → Bool
is_read n = is_some n.read_at

pub record ForkRelation : Type 0 where
  pub id : ObjectId
  pub project_id : ObjectId
  pub source_project_id : ObjectId
  pub source_version_id : ObjectId
  pub source_workspace_id : ObjectId
  pub source_project_name : Text
  pub source_version_label : Text
  pub created_by : ObjectId
  pub created_at : Time

-- What a poll of the scheduler reports.
pub record SchedulerJobState : Type 0 where
  pub state : SchedulerState
  pub exit_code : Option ℤ
  pub started_at : Option Time
  pub finished_at : Option Time
  pub reason : Text
