-- ===== src/Auth.antt =====
-- crates/openlake_server/src/auth.rs: the verification of signed requests.
pub mod Text
pub mod TextFacts
pub mod Failures
pub mod Header
pub mod HeaderRoundTrip
pub mod Utf8
pub mod Query
pub mod Verify
pub mod Check
pub mod Compare
pub mod Sound
pub mod QueryFacts
pub mod Body
mod Examples
