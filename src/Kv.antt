-- ===== src/Kv.antt =====
-- The slots of the key-value slab, crates/openlake_io/src/kv.rs.
pub mod Slots
pub mod Order
pub mod Lru
pub mod Pool
pub mod Release
pub mod Reserve
pub mod Commit
mod Examples
