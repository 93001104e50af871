-- ===== src/Workspaces/Owned/Transfer.antt =====
-- The three writes of `transfer_ownership` (application/workspace_service.py): the old owner's row, the
-- new owner's row, the workspace.
use workspace.Base.{
  ◌==◌, ◌≡◌, ◌≢◌, ◌∙◌, refl, false, some, arith, if◌then◌else◌, Bool-cases, inl, inr,
}
use workspace.Domain.Errors.{ObjectId}
use workspace.Domain.Enums.{WorkspaceRole, MembershipStatus}
use workspace.Domain.Models.{Workspace, Membership, is_personal}
use workspace.Store.{World}
use workspace.Store.Members.{
  workspace_get, is_membership_of, membership_get, write_membership, write_workspace,
}
use workspace.Store.Members.Laws.{
  Rewrites, membership_get-write, membership_by_id-write, membership_get_key, workspace_get_key,
  workspace_get-write_membership, workspace_get-write, membership_get-write_workspace,
  membership_by_id-write_workspace,
}
use workspace.Workspaces.Owned.{OwnerOf, IsKeyed, IsOwned, write_membership-IsKeyed}

module _ (w : World) (inv : IsOwned w) (ws target : ObjectId) (x : Workspace) (m : Membership)
    (x_found : workspace_get ws w ≡ some x) (shared : is_personal x ≡ false)
    (m_found : membership_get ws target w ≡ some m) (m_active : m.status ≡ MembershipStatus.active)
    (other : target ≢ x.owner_id) (previous : Membership)
    (p_found : membership_get ws x.owner_id w ≡ some previous) where
  unfoldable pub demoted : World
  demoted = write_membership (record previous { role = WorkspaceRole.admin }) w

  unfoldable pub promoted : World
  promoted = write_membership (record m { role = WorkspaceRole.owner }) demoted

  unfoldable pub handed_over : World
  handed_over = write_workspace (record x { owner_id = target }) promoted

  Rewrites-previous :
      Rewrites ws x.owner_id w previous (record previous { role = WorkspaceRole.admin })
  Rewrites-previous = record {
    found = p_found;
    same_row = inv.keyed ws x.owner_id previous p_found;
    same_id = refl;
  }

  Rewrites-target : Rewrites ws target demoted m (record m { role = WorkspaceRole.owner })
  unfolding demoted
  Rewrites-target =
      let key = membership_get_key ws x.owner_id w previous p_found in
      let key' = membership_get_key ws target w m m_found in
      let row = inv.keyed ws target m m_found in
      let row' = inv.keyed ws x.owner_id previous p_found in
      record {
        found = ground (arith, membership_get-write Rewrites-previous ws target);
        same_row = ground (arith, membership_by_id-write Rewrites-previous m.id);
        same_id = refl;
      }

  handed_over-IsKeyed : IsKeyed handed_over
  unfolding handed_over promoted demoted write_membership
  handed_over-IsKeyed ws' user' y h = rw membership_by_id-write_workspace (
      write_membership-IsKeyed Rewrites-target
        (write_membership-IsKeyed Rewrites-previous inv.keyed) ws' user' y
        (rw membership_get-write_workspace at h))

  -- Lookups afterwards.
  handed_over_get :
      (ws' user' : ObjectId)
      → membership_get ws' user' handed_over ≡ (
          if is_membership_of ws' user' m
          then some (record m { role = WorkspaceRole.owner })
          else if is_membership_of ws' user' previous
          then some (record previous { role = WorkspaceRole.admin })
          else membership_get ws' user' w)
  unfolding handed_over promoted demoted
  handed_over_get ws' user' = rw (
    membership_get-write_workspace,
    membership_get-write Rewrites-target,
    membership_get-write Rewrites-previous,
  )

  handed_over_workspace :
      (j : ObjectId)
      → workspace_get j handed_over
        ≡ (if ws == j then some (record x { owner_id = target }) else workspace_get j w)
  unfolding handed_over promoted demoted
  handed_over_workspace j =
      workspace_get-write ws j x (record x { owner_id = target }) promoted
        (rw (workspace_get-write_membership, workspace_get-write_membership) x_found)
        (workspace_get_key ws w x x_found)
      ∙ rw (workspace_get-write_membership, workspace_get-write_membership)

  handed_over_sole :
      (ws' user' : ObjectId) (y : Membership)
      → membership_get ws' user' handed_over ≡ some y
      → y.role ≡ WorkspaceRole.owner
      → (z : Workspace) × (workspace_get ws' handed_over ≡ some z)
        × (is_personal z ≡ false)
        × (z.owner_id ≡ user')
  handed_over_sole ws' user' y h e =
      let now = handed_over_get ws' user' in
      let space = handed_over_workspace ws' in
      let key = membership_get_key ws target w m m_found in
      let key' = membership_get_key ws x.owner_id w previous p_found in
      elim (Bool-cases (is_membership_of ws' user' m)) [
        | inl same ↦ (record x { owner_id = target }, ground arith, shared, ground arith)
        | inr other_row ↦ elim (Bool-cases (is_membership_of ws' user' previous)) [
          | inl same ↦ absurd (ground arith)
          | inr third ↦
              let (z, found, public, owns) = inv.sole ws' user' y (ground arith) e in
              (z, ground arith, public, owns)
        ]
      ]

  handed_over_held :
      (ws' : ObjectId) (z : Workspace)
      → workspace_get ws' handed_over ≡ some z
      → is_personal z ≡ false
      → (y : Membership) × OwnerOf handed_over z y
  handed_over_held ws' z h p =
      let now = handed_over_get z.id z.owner_id in
      let space = handed_over_workspace ws' in
      let key = membership_get_key ws target w m m_found in
      let key' = membership_get_key ws x.owner_id w previous p_found in
      let x_id = workspace_get_key ws w x x_found in
      elim (Bool-cases (ws == ws')) [
        | inl same ↦ (
          record m { role = WorkspaceRole.owner },
          record { found = ground arith; role = refl; status = m_active },
        )
        | inr other_space ↦
            let found : workspace_get ws' w ≡ some z = ground arith in
            let z_id = workspace_get_key ws' w z found in
            let (y, own) = inv.held ws' z found p in
            (y, record { found = ground (arith, own.found); role = own.role; status = own.status })
      ]

  -- A transfer keeps the ownership, with the target as the owner.
  pub handed_over-IsOwned : IsOwned handed_over
  handed_over-IsOwned = record {
    keyed = handed_over-IsKeyed;
    sole = handed_over_sole;
    held = handed_over_held;
  }
