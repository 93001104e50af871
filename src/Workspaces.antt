-- ===== src/Workspaces.antt =====
-- WorkspaceService of application/workspace_service.py.
pub mod Notices
pub mod Members
pub mod Owned
