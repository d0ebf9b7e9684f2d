-- ===== src/Registry/Lifecycle.antt =====
-- The lifecycle of an agreement, as an abstract state machine, and the proof that every write of
-- the registry (dipper-pgregistry/src/postgres.rs) follows it on every row.
pub mod Moves
pub mod Edges
pub mod Writes
pub mod Reconciled
pub mod Traces
pub mod Inserts
pub mod Histories
pub mod Shrinks
pub mod KeepsUnique
pub mod Uniqueness
