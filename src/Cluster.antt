-- ===== src/Cluster.antt =====
-- Which disks hold an object: crates/openlake_storage/src/cluster.rs and format.rs.
pub mod Topology
pub mod Routing
pub mod Bootstrap
mod Examples
