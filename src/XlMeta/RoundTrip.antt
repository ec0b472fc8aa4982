-- ===== src/XlMeta/RoundTrip.antt =====
-- What is written by crates/openlake_io/src/xl_meta.rs is read back.
pub mod Validity
pub mod Pairs
pub mod Tail
pub mod Whole
pub mod Framing
pub mod Ids
