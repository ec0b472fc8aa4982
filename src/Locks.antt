-- ===== src/Locks.antt =====
-- The distributed lock: crates/openlake_server/src/lock_server.rs (the votes of one node) and
-- crates/openlake_storage/src/dsync.rs (the client that collects them).
pub mod Server
pub mod Client
pub mod Backoff
pub mod Exclusion
pub mod Refresh
mod Examples
