-- ===== src/Chain.antt =====
-- What the chain listener does with the snapshots it reads
-- (bin/dipper-service/src/network/service/chain_listener.rs).
pub mod Snapshots
pub mod Follows
pub mod LiveChecks
pub mod Clock
pub mod Cursor
pub mod Pages
pub mod PageCursor
pub mod Replaced
pub mod Turns
pub mod Drain
pub mod Settle
pub mod Holds
pub mod Polls
pub mod Window
pub mod LetGo
