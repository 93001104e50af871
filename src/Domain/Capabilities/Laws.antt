-- ===== src/Domain/Capabilities/Laws.antt =====
-- The order of the roles (domain/capabilities.py).
use workspace.Base.{ℕ, ◌≤◌, ◌≡◌, ◌↔◌, true, arith}
use workspace.Domain.Enums.{WorkspaceRole}
use workspace.Domain.Capabilities.{Capability, capabilities_of}

-- How far a role is from the weakest.
pub rank : WorkspaceRole → ℕ
rank WorkspaceRole.viewer = 0
rank WorkspaceRole.member = 1
rank WorkspaceRole.admin = 2
rank WorkspaceRole.owner = 3

-- The weakest rank that has the capability.
pub needed_rank : Capability → ℕ
needed_rank Capability.workspace_view = 0
needed_rank Capability.member_view = 0
needed_rank Capability.config_view = 0
needed_rank Capability.entitlement_view = 0
needed_rank Capability.project_view = 0
needed_rank Capability.run_view = 0
needed_rank Capability.workspace_update = 2
needed_rank Capability.member_manage = 2
needed_rank Capability.config_manage = 2
needed_rank Capability.ownership_transfer = 3
needed_rank _ = 1

-- A role has a capability exactly when it ranks at least as high (viewer, member, admin, owner) as
-- the capability needs: viewing needs a viewer, contributing a member, administering an admin, and
-- the transfer of the ownership an owner.
pub capabilities_of_iff :
    (role : WorkspaceRole) (c : Capability)
    → (capabilities_of role c ≡ true) ↔ (needed_rank c ≤ rank role)
unfolding capabilities_of rank needed_rank
capabilities_of_iff role c = ground arith
