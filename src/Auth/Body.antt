-- ===== src/Auth/Body.antt =====
-- crates/openlake_server/src/s3/body_source.rs and the end of crates/openlake_server/src/auth.rs: the
-- bodies of uploads.
pub mod Frames
pub mod Chunked
pub mod Hashed
pub mod Sound
pub mod Framing
pub mod Whole
pub mod Reading
pub mod Hash
mod Examples
