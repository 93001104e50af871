-- ===== src/Domain/Capabilities.antt =====
-- domain/capabilities.py: a role is a named set of capabilities, built up by union.
pub mod Laws
use workspace.Base.{Bool, true, false, ◌||◌}
use workspace.Domain.Enums.{WorkspaceRole}

pub data Capability : Type 0 where
  workspace_view workspace_update : Capability
  member_view member_manage ownership_transfer : Capability
  config_view config_manage entitlement_view : Capability
  project_view project_create project_update project_content_write : Capability
  run_configuration_manage run_view run_submit run_cancel : Capability

-- A `frozenset[Capability]` is its membership test.
abbrev pub CapabilitySet : Type 0
CapabilitySet = Capability → Bool

-- `a | b`
union : CapabilitySet → CapabilitySet → CapabilitySet
union s t c = s c || t c

-- `_VIEW_ONLY`
view_only : CapabilitySet
view_only Capability.workspace_view = true
view_only Capability.member_view = true
view_only Capability.config_view = true
view_only Capability.entitlement_view = true
view_only Capability.project_view = true
view_only Capability.run_view = true
view_only _ = false

contribute_only : CapabilitySet
contribute_only Capability.project_create = true
contribute_only Capability.project_update = true
contribute_only Capability.project_content_write = true
contribute_only Capability.run_configuration_manage = true
contribute_only Capability.run_submit = true
contribute_only Capability.run_cancel = true
contribute_only _ = false

-- `_CONTRIBUTE`
contribute : CapabilitySet
unfolding union view_only contribute_only
contribute = union view_only contribute_only

administer_only : CapabilitySet
administer_only Capability.workspace_update = true
administer_only Capability.member_manage = true
administer_only Capability.config_manage = true
administer_only _ = false

-- `_ADMINISTER`
administer : CapabilitySet
unfolding union contribute administer_only
administer = union contribute administer_only

transfer_only : CapabilitySet
transfer_only Capability.ownership_transfer = true
transfer_only _ = false

-- `ROLE_CAPABILITIES` and `capabilities_of`
unfoldable pub capabilities_of : WorkspaceRole → CapabilitySet
unfolding union view_only contribute administer transfer_only
capabilities_of WorkspaceRole.owner = union administer transfer_only
capabilities_of WorkspaceRole.admin = administer
capabilities_of WorkspaceRole.member = contribute
capabilities_of WorkspaceRole.viewer = view_only
