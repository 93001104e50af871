-- ===== src/Runs.antt =====
-- Runs: application/run_service.py and application/run_lifecycle.py.
pub mod Ports
pub mod Idempotency
pub mod Preflight
pub mod Submit
pub mod Create
pub mod Lifecycle
pub mod Untouched
pub mod Limits
pub mod Rows
pub mod Ended
pub mod Proven
pub mod Steps
pub mod Replays
pub mod Keys
pub mod Repeats
