-- ===== src/Buffers.antt =====
-- The pool of aligned buffers, crates/openlake_io/src/alloc/memory_pool.rs.
pub mod Pool
pub mod Fit
mod Examples
