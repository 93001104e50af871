-- ===== src/Workspaces/Members.antt =====
-- The members of a workspace in application/workspace_service.py: invite, answer, remove, change role,
-- leave, transfer.
use workspace.Base.{
  ◌==◌, Bool, true, false, Option, none, some, Text, if◌then◌else◌, ◌>>=◌, ◌>>◌, pure, reads, gets,
  raise_if,
}
use workspace.Domain.Errors.{
  ObjectId, object_not_found, conflict_error, permission_denied, Conflict, Kind, by_id, by_text,
  Denial,
}
use workspace.Domain.Enums.{
  WorkspaceRole, MembershipStatus, ActivityAction, NotificationType, role_value,
}
use workspace.Domain.Capabilities.{Capability}
use workspace.Domain.Models.{User, Membership, is_personal}
use workspace.Store.{Env, Op, new_id, or_missing}
use workspace.Store.Members.{
  user_get, user_get_by_username, membership_get, membership_add, membership_update,
  workspace_update,
}
use workspace.Access.{guard_workspace}
use workspace.Workspaces.Notices.{
  status_is_removed, reject_owner_role, lacks_active, lacks_invited, is_member_or_invited,
  member_activity, workspace_invited, member_removed, told_in_workspace,
}

unfoldable pub invitation : ObjectId → ObjectId → ObjectId → WorkspaceRole → Membership
invitation i ws user role = record {
  id = i;
  workspace_id = ws;
  user_id = user;
  role = role;
  status = MembershipStatus.invited;
}

-- The registered owner is demoted, whoever made the call.
unfoldable pub demote : Option Membership → Op (Unit {0})
demote none = pure tt
demote (some m) = membership_update (record m { role = WorkspaceRole.admin })

module _ (env : Env) where
  -- What both branches of an invitation end with.
  unfoldable pub invitation_sent : ObjectId → ObjectId → User → WorkspaceRole → Op (Unit {0})
  unfolding member_activity workspace_invited
  invitation_sent actor ws invitee role = do
    member_activity env actor ws ActivityAction.member_invited (some invitee)
    workspace_invited env actor invitee.id ws (role_value role)

  -- An old membership is used again; otherwise one is made.
  unfoldable pub place_invitation :
      ObjectId → ObjectId → User → WorkspaceRole → Option Membership → Op Membership
  unfolding invitation_sent
  place_invitation actor ws invitee role (some old) = do
    membership_update (record old { role = role; status = MembershipStatus.invited })
    invitation_sent actor ws invitee role
    pure (record old { role = role; status = MembershipStatus.invited })
  place_invitation actor ws invitee role none = do
    i ← new_id env
    membership_add (invitation i ws invitee.id role)
    invitation_sent actor ws invitee role
    pure (invitation i ws invitee.id role)

  unfoldable pub invite_member : ObjectId → ObjectId → Text → WorkspaceRole → Op Membership
  unfolding place_invitation
  invite_member user ws username role = do
    access ← reads (guard_workspace user ws (some Capability.member_manage))
    raise_if (is_personal access.space) (conflict_error Conflict.personal_has_no_members)
    reject_owner_role role
    found ← gets (user_get_by_username username)
    invitee ← or_missing Kind.user (by_text username) found
    existing ← gets (membership_get ws invitee.id)
    raise_if (is_member_or_invited existing) (conflict_error Conflict.already_member)
    place_invitation user ws invitee role existing

  -- A refusal is no activity.
  unfoldable pub answered : ObjectId → ObjectId → Bool → Op (Unit {0})
  unfolding member_activity
  answered user ws true = do
    u ← gets (user_get user)
    member_activity env user ws ActivityAction.member_joined u
  answered user ws false = pure tt

  unfoldable pub respond_to_invitation : ObjectId → ObjectId → Bool → Op Membership
  unfolding answered
  respond_to_invitation user ws accept = do
    found ← gets (membership_get ws user)
    raise_if (lacks_invited found) (object_not_found Kind.invitation (by_id ws))
    m ← or_missing Kind.invitation (by_id ws) found
    let status = if accept then MembershipStatus.active else MembershipStatus.left
    membership_update (record m { status = status })
    answered user ws accept
    pure (record m { status = status })

  -- Removing a removed member again is silent.
  unfoldable pub remove_found : ObjectId → ObjectId → ObjectId → Membership → Op (Unit {0})
  unfolding member_activity member_removed
  remove_found user ws target m = if status_is_removed m.status then pure tt else do
    membership_update (record m { status = MembershipStatus.removed })
    u ← gets (user_get target)
    member_activity env user ws ActivityAction.member_removed u
    member_removed env user target ws

  unfoldable pub remove_member : ObjectId → ObjectId → ObjectId → Op (Unit {0})
  unfolding remove_found
  remove_member user ws target = do
    access ← reads (guard_workspace user ws (some Capability.member_manage))
    raise_if (target == access.space.owner_id) (conflict_error Conflict.owner_removed)
    found ← gets (membership_get ws target)
    m ← or_missing Kind.membership (by_id target) found
    remove_found user ws target m

  unfoldable pub change_member_role : ObjectId → ObjectId → ObjectId → WorkspaceRole → Op Membership
  unfolding member_activity told_in_workspace
  change_member_role user ws target role = do
    access ← reads (guard_workspace user ws (some Capability.member_manage))
    raise_if (is_personal access.space) (conflict_error Conflict.personal_has_no_members)
    reject_owner_role role
    raise_if (target == access.space.owner_id) (conflict_error Conflict.owner_role)
    found ← gets (membership_get ws target)
    raise_if (lacks_active found) (object_not_found Kind.membership (by_id target))
    m ← or_missing Kind.membership (by_id target) found
    membership_update (record m { role = role })
    u ← gets (user_get target)
    member_activity env user ws ActivityAction.member_role_changed u
    told_in_workspace env NotificationType.role_changed user target ws
    pure (record m { role = role })

  unfoldable pub leave : ObjectId → ObjectId → Op (Unit {0})
  unfolding member_activity
  leave user ws = do
    access ← reads (guard_workspace user ws none)
    raise_if (is_personal access.space) (conflict_error Conflict.personal_stays)
    raise_if (access.space.owner_id == user) (permission_denied Denial.owner_leaves)
    found ← gets (membership_get ws user)
    m ← or_missing Kind.membership (by_id user) found
    membership_update (record m { status = MembershipStatus.left })
    u ← gets (user_get user)
    member_activity env user ws ActivityAction.member_left u

  unfoldable pub transfer_ownership : ObjectId → ObjectId → ObjectId → Op (Unit {0})
  unfolding demote member_activity told_in_workspace
  transfer_ownership user ws target = do
    access ← reads (guard_workspace user ws (some Capability.ownership_transfer))
    raise_if (is_personal access.space) (conflict_error Conflict.personal_has_no_members)
    found ← gets (membership_get ws target)
    raise_if (lacks_active found) (object_not_found Kind.membership (by_id target))
    m ← or_missing Kind.membership (by_id target) found
    raise_if (target == access.space.owner_id) (conflict_error Conflict.already_owner)
    previous ← gets (membership_get ws access.space.owner_id)
    demote previous
    membership_update (record m { role = WorkspaceRole.owner })
    workspace_update (record access.space { owner_id = target })
    u ← gets (user_get target)
    member_activity env user ws ActivityAction.ownership_transferred u
    told_in_workspace env NotificationType.ownership_received user target ws
