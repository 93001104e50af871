-- ===== src/Workspaces/Owned/Steps.antt =====
-- The member operations of application/workspace_service.py in any order: a history is a sequence
-- of the calls that returned.
use workspace.Base.{Bool, Text, ok, ◌≡◌}
use workspace.Domain.Errors.{ObjectId}
use workspace.Domain.Enums.{WorkspaceRole}
use workspace.Domain.Models.{Membership}
use workspace.Store.{Env, World}
use workspace.Workspaces.Members.{
  change_member_role, leave, remove_member, respond_to_invitation, invite_member,
  transfer_ownership,
}
use workspace.Workspaces.Owned.{IsOwned}
use workspace.Workspaces.Owned.Calls.{
  change_member_role-IsOwned, leave-IsOwned, remove_member-IsOwned, respond_to_invitation-IsOwned,
  invite_member-IsOwned, transfer_ownership-IsOwned,
}

module _ (env : Env) where
  -- One committed call, by whatever user.
  pub data MemberStep (w : World) : World → Type 0 where
    invites :
        (user ws : ObjectId) (username : Text) (role : WorkspaceRole) (m : Membership) (w' : World)
        → invite_member env user ws username role w ≡ ok (m, w')
        → MemberStep w w'
    answers :
        (user ws : ObjectId) (accept : Bool) (m : Membership) (w' : World)
        → respond_to_invitation env user ws accept w ≡ ok (m, w')
        → MemberStep w w'
    removes :
        (user ws target : ObjectId) (w' : World)
        → remove_member env user ws target w ≡ ok (tt, w')
        → MemberStep w w'
    changes_role :
        (user ws target : ObjectId) (role : WorkspaceRole) (m : Membership) (w' : World)
        → change_member_role env user ws target role w ≡ ok (m, w')
        → MemberStep w w'
    leaves : (user ws : ObjectId) (w' : World) → leave env user ws w ≡ ok (tt, w') → MemberStep w w'
    transfers :
        (user ws target : ObjectId) (w' : World)
        → transfer_ownership env user ws target w ≡ ok (tt, w')
        → MemberStep w w'

  -- Any number of them.
  pub data MemberHistory (w : World) : World → Type 0 where
    start : MemberHistory w w
    next : {v v' : World} → MemberHistory w v → MemberStep v v' → MemberHistory w v'

  step-IsOwned : (w w' : World) → MemberStep w w' → IsOwned w → IsOwned w'
  step-IsOwned w _ (MemberStep.invites user ws username role m w' h) inv =
      (invite_member-IsOwned env user ws username role).at w m w' inv h
  step-IsOwned w _ (MemberStep.answers user ws accept m w' h) inv =
      (respond_to_invitation-IsOwned env user ws accept).at w m w' inv h
  step-IsOwned w _ (MemberStep.removes user ws target w' h) inv =
      (remove_member-IsOwned env user ws target).at w tt w' inv h
  step-IsOwned w _ (MemberStep.changes_role user ws target role m w' h) inv =
      (change_member_role-IsOwned env user ws target role).at w m w' inv h
  step-IsOwned w _ (MemberStep.leaves user ws w' h) inv =
      (leave-IsOwned env user ws).at w tt w' inv h
  step-IsOwned w _ (MemberStep.transfers user ws target w' h) inv =
      (transfer_ownership-IsOwned env user ws target).at w tt w' inv h

  -- From a store where the registered owner of each collaborative workspace is its one member with
  -- the role `owner`, an active one, any sequence of committed calls of invite_member,
  -- respond_to_invitation, remove_member, change_member_role, leave and transfer_ownership, by
  -- whatever users, leads to such a store.
  pub history-IsOwned : (w w' : World) → MemberHistory w w' → IsOwned w → IsOwned w'
  history-IsOwned w _ MemberHistory.start inv = inv
  history-IsOwned w _ (MemberHistory.next {v} h s) inv =
      step-IsOwned v _ s (history-IsOwned w v h inv)
