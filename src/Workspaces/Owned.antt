-- ===== src/Workspaces/Owned.antt =====
-- ADR-0008 (application/workspace_service.py, `_reject_owner_role` and `transfer_ownership`): the
-- registered owner of a collaborative workspace, and its members with the role `owner`.
pub mod Transfer
pub mod Added
pub mod Operations
pub mod Calls
pub mod Steps
use workspace.Base.{
  ◌==◌, ◌&&◌, ◌≡◌, ◌≢◌, refl, Bool, true, false, Option, none, some, List, [], ◌∷◌, ◌++◌, find?,
  any, find?-passes, find?-append_some, find?-append_none, find?-update_other, find?-update_same,
  find?-update_self, ok, arith, if◌then◌else◌, Bool-cases, Option-cases, inl, inr,
}
use workspace.Domain.Errors.{ObjectId}
use workspace.Domain.Enums.{WorkspaceRole, MembershipStatus}
use workspace.Domain.Models.{Workspace, Membership, is_personal}
use workspace.Store.{World}
use workspace.Store.Members.{
  workspace_get, membership_by_id, is_membership_of, membership_get, write_membership,
  write_workspace,
}
use workspace.Store.Members.Laws.{
  Rewrites, membership_get-write, membership_by_id-write, membership_get_key, workspace_get_key,
  workspace_get-write_membership,
}

-- This member is the owner of this workspace.
pub record OwnerOf (w : World) (x : Workspace) (m : Membership) : Type 0 where
  pub found : membership_get x.id x.owner_id w ≡ some m
  pub role : m.role ≡ WorkspaceRole.owner
  pub status : m.status ≡ MembershipStatus.active

-- A row found by workspace and user is also the one of its primary key.
abbrev pub IsKeyed : World → Type 0
IsKeyed w =
    (ws user : ObjectId) (m : Membership)
    → membership_get ws user w ≡ some m
    → membership_by_id m.id w ≡ some m

-- A row found by workspace and user is also the one of its primary key; whoever has the role
-- `owner` is the registered owner of a collaborative workspace; a collaborative workspace's
-- registered owner is an active member with the role `owner`.
pub record IsOwned (w : World) : Type 0 where
  pub keyed : IsKeyed w
  pub sole :
      (ws user : ObjectId) (m : Membership)
      → membership_get ws user w ≡ some m
      → m.role ≡ WorkspaceRole.owner
      → (x : Workspace) × (workspace_get ws w ≡ some x)
        × (is_personal x ≡ false)
        × (x.owner_id ≡ user)
  pub held :
      (ws : ObjectId) (x : Workspace)
      → workspace_get ws w ≡ some x
      → is_personal x ≡ false
      → (m : Membership) × OwnerOf w x m

module _ {w : World} {ws user : ObjectId} {old m : Membership} (r : Rewrites ws user w old m) where
  -- The table keeps its keys under an update of a row that was found.
  pub write_membership-IsKeyed : IsKeyed w → IsKeyed (write_membership m w)
  write_membership-IsKeyed keyed ws' user' x h = ground (
    arith,
    membership_get-write r ws' user',
    membership_by_id-write r x.id,
    keyed ws' user' x,
    r.same_row,
    membership_get_key ws' user' w x,
  )

  -- Nobody becomes an owner, and the row is not that of the registered owner.
  module _ (inv : IsOwned w) (fair : m.role ≢ WorkspaceRole.owner)
      (spared : (x : Workspace)
        → workspace_get ws w ≡ some x
        → is_personal x ≡ false
        → x.owner_id ≢ user) where
    write_membership_sole :
        (ws' user' : ObjectId) (x : Membership)
        → membership_get ws' user' (write_membership m w) ≡ some x
        → x.role ≡ WorkspaceRole.owner
        → (y : Workspace) × (workspace_get ws' (write_membership m w) ≡ some y)
          × (is_personal y ≡ false)
          × (y.owner_id ≡ user')
    write_membership_sole ws' user' x h e =
        let now = membership_get-write r ws' user' in
        elim (Bool-cases (is_membership_of ws' user' old)) [
          | inl same ↦ absurd (fair (ground arith))
          | inr other ↦ rw workspace_get-write_membership (inv.sole ws' user' x (ground arith) e)
        ]

    write_membership_held :
        (ws' : ObjectId) (y : Workspace)
        → workspace_get ws' (write_membership m w) ≡ some y
        → is_personal y ≡ false
        → (x : Membership) × OwnerOf (write_membership m w) y x
    write_membership_held ws' y h p =
        let found : workspace_get ws' w ≡ some y = rw workspace_get-write_membership at h in
        let (x, own) = inv.held ws' y found p in
        let now = membership_get-write r y.id y.owner_id in
        let y_id = workspace_get_key ws' w y found in
        let key = membership_get_key ws user w old r.found in
        let kept : is_membership_of y.id y.owner_id old ≡ false =
          elim (Bool-cases (is_membership_of y.id y.owner_id old)) [
            | inl same ↦
                let e : ws ≡ ws' = ground arith in absurd (spared y (rw e found) p (ground arith))
            | inr other ↦ other
          ] in
        (x, record { found = rw (now, kept) own.found; role = own.role; status = own.status })

    -- Any such update keeps the ownership.
    pub write_membership-IsOwned : IsOwned (write_membership m w)
    write_membership-IsOwned = record {
      keyed = write_membership-IsKeyed inv.keyed;
      sole = write_membership_sole;
      held = write_membership_held;
    }
