-- ===== src/Consensus.antt =====
-- Quorum decisions of the engine, crates/openlake_storage/src/engine.rs: what the disks of a set
-- agree on. `HashMap` iterates in an unspecified order, which is a parameter of the model.
pub mod Tally
pub mod Votes
pub mod Results
pub mod Contract
pub mod Read
pub mod Written
pub mod Session
mod Examples
