-- ===== src/Queue.antt =====
-- The job queue on PostgreSQL (dipper-pgmq/src).
pub mod Jobs
pub mod Store
pub mod Ids
pub mod Picks
pub mod Ready
pub mod Sound
pub mod Invariant
pub mod Serving
