-- ===== src/Workspaces/Notices.antt =====
-- What the member operations of application/workspace_service.py test, and what they report to the
-- feeds.
use workspace.Base.{Bool, true, false, ◌||◌, not, Option, none, some, [], Text, pure, raise_if}
use workspace.Domain.Errors.{ObjectId, conflict_error, Conflict}
use workspace.Domain.Enums.{
  WorkspaceRole, MembershipStatus, ActivityAction, TargetType, NotificationType,
}
use workspace.Domain.Models.{User, Membership, is_active}
use workspace.Store.{Env, Op}
use workspace.Store.Members.{status_is_invited}
use workspace.Activities.{record_activity, publish}

abbrev pub is_owner_role : WorkspaceRole → Bool
is_owner_role WorkspaceRole.owner = true
is_owner_role _ = false

abbrev pub status_is_removed : MembershipStatus → Bool
status_is_removed MembershipStatus.removed = true
status_is_removed _ = false

-- `_reject_owner_role`
abbrev pub reject_owner_role : WorkspaceRole → Op (Unit {0})
reject_owner_role role = raise_if (is_owner_role role) (conflict_error Conflict.assign_owner)

-- `x is None or not f(x)`
abbrev pub lacks_active : Option Membership → Bool
lacks_active none = true
lacks_active (some m) = not (is_active m)

abbrev pub lacks_invited : Option Membership → Bool
lacks_invited none = true
lacks_invited (some m) = not (status_is_invited m.status)

-- `existing.status in {INVITED, ACTIVE}`
abbrev pub is_member_or_invited : Option Membership → Bool
is_member_or_invited none = false
is_member_or_invited (some m) = status_is_invited m.status || is_active m

module _ (env : Env) where
  -- `_record_member_activity`
  unfoldable pub member_activity :
      ObjectId → ObjectId → ActivityAction → Option User → Op (Unit {0})
  member_activity actor ws action none = pure tt
  member_activity actor ws action (some u) = record_activity env actor (record {
    workspace_id = ws;
    project_id = none;
    action = action;
    target_type = TargetType.member;
    target_id = u.id;
    target_name = u.username;
  })

  -- `Notifier.workspace_invited`: no link, since the invitee does not see the workspace yet.
  unfoldable pub workspace_invited : ObjectId → ObjectId → ObjectId → Text → Op (Unit {0})
  workspace_invited actor invitee ws role = publish env invitee (some actor) (record {
    type = NotificationType.workspace_invited;
    body = role;
    workspace_id = some ws;
    target = none;
    mandatory = false;
  })

  -- `Notifier.member_removed`
  unfoldable pub member_removed : ObjectId → ObjectId → ObjectId → Op (Unit {0})
  member_removed actor member ws = publish env member (some actor) (record {
    type = NotificationType.member_removed;
    body = [];
    workspace_id = some ws;
    target = none;
    mandatory = true;
  })

  -- `Notifier.role_changed` and `Notifier.ownership_received`
  unfoldable pub told_in_workspace :
      NotificationType → ObjectId → ObjectId → ObjectId → Op (Unit {0})
  told_in_workspace type actor member ws = publish env member (some actor) (record {
    type = type;
    body = [];
    workspace_id = some ws;
    target = some (TargetType.workspace_target, ws);
    mandatory = true;
  })
