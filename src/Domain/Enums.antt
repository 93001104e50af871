-- ===== src/Domain/Enums.antt =====
-- domain/enums.py and the scheduler's states of domain/ports/scheduler.py. A member's value is
-- spelled as in the source where the program prints it.
use workspace.Base.{Bool, true, false, Text, text}

pub data WorkspaceKind : Type 0 where
  personal collaborative : WorkspaceKind

pub data WorkspaceRole : Type 0 where
  owner admin member viewer : WorkspaceRole

pub data MembershipStatus : Type 0 where
  invited active left removed : MembershipStatus

pub data ProjectStatus : Type 0 where
  active archived : ProjectStatus

pub data RunStatus : Type 0 where
  queued running succeeded failed cancelled submit_failed : RunStatus

-- `RunStatus.is_terminal`
abbrev pub is_terminal : RunStatus → Bool
is_terminal RunStatus.queued = false
is_terminal RunStatus.running = false
is_terminal RunStatus.succeeded = true
is_terminal RunStatus.failed = true
is_terminal RunStatus.cancelled = true
is_terminal RunStatus.submit_failed = true

-- `is` on the members of an enumeration.
abbrev pub status_is : RunStatus → RunStatus → Bool
status_is RunStatus.queued RunStatus.queued = true
status_is RunStatus.running RunStatus.running = true
status_is RunStatus.succeeded RunStatus.succeeded = true
status_is RunStatus.failed RunStatus.failed = true
status_is RunStatus.cancelled RunStatus.cancelled = true
status_is RunStatus.submit_failed RunStatus.submit_failed = true
status_is _ _ = false

pub data RunEventType : Type 0 where
  created submitted submit_failed started finished cancel_requested cancelled : RunEventType
  artifact_collected artifact_missing error : RunEventType

pub data ArtifactStatus : Type 0 where
  available cleaned : ArtifactStatus

pub data InputSourceType : Type 0 where
  artifact shared_resource_version : InputSourceType

pub data EnvValueKind : Type 0 where
  literal variable secret : EnvValueKind

pub data ChangeKind : Type 0 where
  added removed modified : ChangeKind

pub data ActivityAction : Type 0 where
  workspace_created workspace_updated : ActivityAction
  member_invited member_joined member_left member_removed member_role_changed : ActivityAction
  ownership_transferred : ActivityAction
  project_created project_updated project_forked : ActivityAction
  version_saved version_restored : ActivityAction
  run_submitted run_cancelled run_finished : ActivityAction

pub data TargetType : Type 0 where
  workspace_target member project project_version run : TargetType

pub data NotificationType : Type 0 where
  workspace_invited member_removed role_changed ownership_received : NotificationType
  run_succeeded run_failed run_submit_failed : NotificationType

pub data SchedulerState : Type 0 where
  pending running completed failed cancelled unknown : SchedulerState

-- `WorkspaceRole.value`
pub role_value : WorkspaceRole → Text
role_value WorkspaceRole.owner = text "owner"
role_value WorkspaceRole.admin = text "admin"
role_value WorkspaceRole.member = text "member"
role_value WorkspaceRole.viewer = text "viewer"

-- `RunStatus.value`
pub status_value : RunStatus → Text
status_value RunStatus.queued = text "queued"
status_value RunStatus.running = text "running"
status_value RunStatus.succeeded = text "succeeded"
status_value RunStatus.failed = text "failed"
status_value RunStatus.cancelled = text "cancelled"
status_value RunStatus.submit_failed = text "submit_failed"
