-- ===== src/Sweeps.antt =====
-- The background services of bin/dipper-service/src/network/service that end, expire and replace
-- agreements: cancel_retry.rs, expiration.rs and liveness_checker.rs.
pub mod Replace
pub mod Retry
pub mod RetryEnds
pub mod Expiration
pub mod Expires
pub mod Breaker
pub mod Grace
pub mod Outages
pub mod Trips
pub mod Liveness
pub mod Abandons
pub mod Replaces
pub mod Reassignment
pub mod Timing
pub mod Passes
