-- ===== src/Supervisor.antt =====
-- The supervision of the service's task tree (bin/dipper-service/src/supervisor.rs).
pub mod Drain
pub mod Teardown
pub mod Clean
