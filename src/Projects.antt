-- ===== src/Projects.antt =====
-- application/project_service.py.
pub mod Paths
pub mod Ports
pub mod Files
pub mod Diff
pub mod Versions
pub mod Settings
pub mod Fork
pub mod Contained
pub mod Configurations
pub mod Trees
pub mod Steps
pub mod Restored
pub mod Saved
pub mod Moved
pub mod Written
pub mod Deleted
