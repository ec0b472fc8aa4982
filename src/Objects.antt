-- ===== src/Objects.antt =====
-- The parts of the object engine, crates/openlake_storage/src/engine.rs, that serve one request.
pub mod Range
pub mod Listing
mod Examples
