-- ===== src/Erasure.antt =====
-- Erasure coding of one stripe: crates/openlake_storage/src/ec.rs. The Reed-Solomon crate is a
-- parameter, in Erasure/Codec.antt.
pub mod Codec
pub mod Shards
pub mod Sizes
pub mod Stripe
mod Examples
