-- ===== src/Tests.antt =====
-- The results at concrete values, for the code of application/ and domain/.
pub mod Data
pub mod Runs
pub mod Members
pub mod Domain
pub mod Projects
pub mod Configurations
pub mod Scheduler
