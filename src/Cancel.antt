-- ===== src/Cancel.antt =====
-- On-chain cancels (bin/dipper-service/src/cancel_dispatch.rs).
pub mod Dispatch
pub mod Marks
pub mod Ending
pub mod Answers
