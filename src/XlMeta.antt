-- ===== src/XlMeta.antt =====
-- The metadata file of an object, crates/openlake_io/src/xl_meta.rs.
pub mod Layout
pub mod Uuid
pub mod Checks
pub mod Encode
pub mod Decode
pub mod RoundTrip
pub mod Newest
mod Examples
