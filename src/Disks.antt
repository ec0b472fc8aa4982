-- ===== src/Disks.antt =====
-- One object on one disk, crates/openlake_io/src/local_fs.rs: its directory and the staging directory of
-- one write, with the steps of I/O that can fail.
pub mod State
pub mod Versions
pub mod Rename
pub mod Delete
pub mod Steps
pub mod Atomic
pub mod Undo
pub mod Promote
mod Examples
