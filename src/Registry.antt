-- ===== src/Registry.antt =====
-- The PostgreSQL registry (dipper-pgregistry/src/postgres.rs).
pub mod Types
pub mod Transitions
pub mod Ends
pub mod Reconcile
pub mod Rows
pub mod PerRow
pub mod Outcome
pub mod Registration
pub mod Requests
pub mod Targets
pub mod EndAudit
pub mod Batch
pub mod Lifecycle
pub mod Queries
pub mod Declined
pub mod Listener
