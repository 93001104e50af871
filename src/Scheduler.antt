-- ===== src/Scheduler.antt =====
-- The adapters of infrastructure/scheduler: the script of a job, and the scheduler on the local host.
pub mod Script
pub mod Mock
