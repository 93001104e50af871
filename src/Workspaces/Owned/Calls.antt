-- ===== src/Workspaces/Owned/Calls.antt =====
-- The member operations of application/workspace_service.py, one by one, and the ownership.
use workspace.Base.{
  ◌≡◌, ◌≢◌, refl, Bool, true, false, Option, none, some, Text, arith, ◌>>=◌, ◌>>◌, Ensures,
  after_reads, after_gets, skip_gets, keep_then, keep_pure, after_raise_if, after_or_raise,
  after_modify, weaken, Ensures-bind, Bool-cases, inl, inr, sym,
}
use workspace.Domain.Errors.{ObjectId}
use workspace.Domain.Enums.{WorkspaceRole, MembershipStatus}
use workspace.Domain.Models.{User, Workspace, Membership, is_personal}
use workspace.Store.{Env, World, Op, new_id}
use workspace.Store.Members.{
  workspace_get, membership_get, membership_add, membership_update, workspace_update,
}
use workspace.Access.Laws.{guard_workspace_found}
use workspace.Workspaces.Notices.{
  told_in_workspace, member_removed, workspace_invited, status_is_removed, is_owner_role,
  is_member_or_invited,
}
use workspace.Workspaces.Members.{
  change_member_role, leave, remove_found, remove_member, answered, respond_to_invitation,
  place_invitation, invite_member, invitation, demote, transfer_ownership,
}
use workspace.Workspaces.Owned.{IsOwned}
use workspace.Workspaces.Owned.Added.{Added-IsOwned}
use workspace.Workspaces.Owned.Transfer.{handed_over-IsOwned, handed_over, promoted, demoted}
use workspace.Store.Members.Added.{membership_add-Added}
use workspace.Store.Members.Laws.{workspace_get_key}
use workspace.Workspaces.Owned.Operations.{
  Keeps, member_activity-Keeps, new_id-Keeps, publish-Keeps, rewrite_fair, plain_member,
  owner_is_registered,
}

module _ (env : Env) where
  pub change_member_role-IsOwned :
      (user ws target : ObjectId) (role : WorkspaceRole)
      → Keeps (change_member_role env user ws target role)
  unfolding change_member_role membership_update told_in_workspace
  change_member_role-IsOwned user ws target role = after_reads _ _ λ access.
      after_raise_if _ _ _ λ shared. after_raise_if _ _ _ λ fair. after_raise_if _ _ _ λ other.
        after_gets _ _ λ found. after_raise_if _ _ _ λ active. after_or_raise _ _ _ λ m e.
          after_modify _ _
            (λ w p.
              let row : membership_get ws target w ≡ some m = ground arith in
              let x = guard_workspace_found user ws _ w access p.0.1 in
              rewrite_fair w ws target m (record m { role = role }) p.0.0 row refl
                (plain_member w ws target m access.space p.0.0 row x (ground arith)) (ground arith))
            (skip_gets _ _ λ u.
              keep_then _ _ (member_activity-Keeps env user ws _ u)
                (keep_then _ _ (publish-Keeps env target _ _) (keep_pure _)))

  pub leave-IsOwned : (user ws : ObjectId) → Keeps (leave env user ws)
  unfolding leave membership_update
  leave-IsOwned user ws = after_reads _ _ λ access. after_raise_if _ _ _ λ shared.
      after_raise_if _ _ _ λ other. after_gets _ _ λ found. after_or_raise _ _ _ λ m e.
        after_modify _ _
          (λ w p.
            let row : membership_get ws user w ≡ some m = ground arith in
            let x = guard_workspace_found user ws _ w access p.0.1 in
            let plain = plain_member w ws user m access.space p.0.0 row x (ground arith) in
            rewrite_fair w ws user m (record m { status = MembershipStatus.left }) p.0.0 row refl
              plain plain)
          (skip_gets _ _ λ u. member_activity-Keeps env user ws _ u)

  remove_found-IsOwned :
      (user ws target : ObjectId) (m : Membership) (x : Workspace)
      → target ≢ x.owner_id
      → Ensures
          (λ w. IsOwned w × (workspace_get ws w ≡ some x) × (membership_get ws target w ≡ some m))
          (remove_found env user ws target m)
          (λ _. IsOwned)
  unfolding remove_found membership_update member_removed
  remove_found-IsOwned user ws target m x other = elim (Bool-cases (status_is_removed m.status)) [
    | inl gone ↦ rw gone (weaken (λ w p. p.0) (keep_pure tt))
    | inr here ↦ rw here (
        after_modify _ _
          (λ w p.
            let plain = plain_member w ws target m x p.0 p.2 p.1 (λ e. other (sym e)) in
            rewrite_fair w ws target m (record m { status = MembershipStatus.removed }) p.0 p.2 refl
              plain plain)
          (skip_gets _ _ λ u.
            keep_then _ _ (member_activity-Keeps env user ws _ u) (publish-Keeps env target _ _)))
  ]

  pub remove_member-IsOwned : (user ws target : ObjectId) → Keeps (remove_member env user ws target)
  unfolding remove_member
  remove_member-IsOwned user ws target = after_reads _ _ λ access. after_raise_if _ _ _ λ other.
      after_gets _ _ λ found. after_or_raise _ _ _ λ m e.
        weaken (λ w p. (p.0.0, guard_workspace_found user ws _ w access p.0.1, ground arith))
          (remove_found-IsOwned user ws target m access.space (ground arith))

  answered-Keeps : (user ws : ObjectId) (accept : Bool) → Keeps (answered env user ws accept)
  unfolding answered
  answered-Keeps user ws true = skip_gets _ _ λ u. member_activity-Keeps env user ws _ u
  answered-Keeps user ws false = keep_pure tt

  pub respond_to_invitation-IsOwned :
      (user ws : ObjectId) (accept : Bool) → Keeps (respond_to_invitation env user ws accept)
  unfolding respond_to_invitation membership_update
  respond_to_invitation-IsOwned user ws accept = after_gets _ _ λ found.
      after_raise_if _ _ _ λ pending. after_or_raise _ _ _ λ m e.
        after_modify _ _
          (λ w p.
            let row : membership_get ws user w ≡ some m = ground arith in
            let idle : m.status ≢ MembershipStatus.active = ground arith in
            let plain : m.role ≢ WorkspaceRole.owner =
              λ o. idle (owner_is_registered w ws user m p.0 row o).3 in
            rewrite_fair w ws user m _ p.0 row refl plain plain)
          (keep_then _ _ (answered-Keeps user ws accept) (keep_pure _))

  place_invitation-IsOwned :
      (user ws : ObjectId) (invitee : User) (role : WorkspaceRole) (existing : Option Membership)
      → is_owner_role role ≡ false
      → is_member_or_invited existing ≡ false
      → Ensures
          (λ w. IsOwned w × (membership_get ws invitee.id w ≡ existing))
          (place_invitation env user ws invitee role existing)
          (λ _. IsOwned)
  unfolding place_invitation membership_update workspace_invited invitation
  place_invitation-IsOwned user ws invitee role (some m) fair idle =
      after_modify _ _
        (λ w p.
          rewrite_fair w ws invitee.id m _ p.0 p.1 refl
            (λ o. let r = (owner_is_registered w ws invitee.id m p.0 p.1 o).3 in ground arith)
            (ground arith))
        (keep_then _ _
          (keep_then _ _ (member_activity-Keeps env user ws _ (some invitee))
            (publish-Keeps env invitee.id _ _))
          (keep_pure _))
  place_invitation-IsOwned user ws invitee role none fair idle =
      weaken (λ w p. p.0)
        (Ensures-bind (λ _. IsOwned) (new_id env) _ (new_id-Keeps env)
          λ i.
            Ensures-bind (λ _. IsOwned) (membership_add (invitation i ws invitee.id role)) _
              (record {
                at = λ w u w' inv h.
                    Added-IsOwned (membership_add-Added (invitation i ws invitee.id role) w w' h)
                      inv (ground arith);
              })
              λ _.
                keep_then _ _
                  (keep_then _ _ (member_activity-Keeps env user ws _ (some invitee))
                    (publish-Keeps env invitee.id _ _))
                  (keep_pure _))

  pub invite_member-IsOwned :
      (user ws : ObjectId) (username : Text) (role : WorkspaceRole)
      → Keeps (invite_member env user ws username role)
  unfolding invite_member
  invite_member-IsOwned user ws username role = after_reads _ _ λ access.
      after_raise_if _ _ _ λ shared. after_raise_if _ _ _ λ fair. skip_gets _ _ λ found.
        after_or_raise _ _ _ λ invitee e. after_gets _ _ λ existing. after_raise_if _ _ _ λ idle.
          weaken (λ w p. (p.0.0, p.1))
            (place_invitation-IsOwned user ws invitee role existing fair idle)

  -- What a transfer has checked before it writes.
  record Transferable (w : World) (ws target : ObjectId) (x : Workspace) (m : Membership)
      : Type 0 where
    inv : IsOwned w
    x_found : workspace_get ws w ≡ some x
    shared : is_personal x ≡ false
    m_found : membership_get ws target w ≡ some m
    m_active : m.status ≡ MembershipStatus.active
    other : target ≢ x.owner_id

  three_writes :
      {B : Type 0} (ws target : ObjectId) (x : Workspace) (m : Membership)
      (previous : Option Membership) (k : Op B)
      → Keeps k
      → Ensures
          (λ w. Transferable w ws target x m × (membership_get ws x.owner_id w ≡ previous))
          (demote previous
            >> (membership_update (record m { role = WorkspaceRole.owner })
                >> (workspace_update (record x { owner_id = target }) >> k)))
          (λ _. IsOwned)
  unfolding demote membership_update workspace_update ◌>>=◌ handed_over promoted demoted
  three_writes ws target x m none k keep = record {
    at = λ w b w' (t, free) h.
        let x_id = workspace_get_key ws w x t.x_found in
        let (p, own) = t.inv.held ws x t.x_found t.shared in
        let found : membership_get ws x.owner_id w ≡ some p = rw x_id at (own.found) in
        absurd (ground arith);
  }
  three_writes ws target x m (some p) k keep = record {
    at = λ w b w' (t, found) h.
        keep.at _ b w'
          (handed_over-IsOwned w t.inv ws target x m t.x_found t.shared t.m_found t.m_active t.other
            p found)
          h;
  }

  pub transfer_ownership-IsOwned :
      (user ws target : ObjectId) → Keeps (transfer_ownership env user ws target)
  unfolding transfer_ownership told_in_workspace
  transfer_ownership-IsOwned user ws target = after_reads _ _ λ access.
      after_raise_if _ _ _ λ shared. after_gets _ _ λ found. after_raise_if _ _ _ λ active.
        after_or_raise _ _ _ λ m e. after_raise_if _ _ _ λ other. after_gets _ _ λ previous.
          weaken
            (λ w p. (
              record {
                inv = p.0.0.0;
                x_found = guard_workspace_found user ws _ w access p.0.0.1;
                shared = shared;
                m_found = ground arith;
                m_active = ground arith;
                other = ground arith;
              },
              p.1,
            ))
            (three_writes ws target access.space m previous _ (
              skip_gets _ _ λ u.
                keep_then _ _ (member_activity-Keeps env user ws _ u)
                  (publish-Keeps env target _ _)))
