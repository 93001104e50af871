-- ===== src/Domain.antt =====
-- The domain layer, archive/workspace107/backend/src/workspace107/domain: enumerations, roles and
-- capabilities, errors, compute plans, the records that the repositories store, pagination.
pub mod Enums
pub mod Capabilities
pub mod Errors
pub mod Compute
pub mod Secrets
pub mod Models
pub mod Snapshot
pub mod Pagination
