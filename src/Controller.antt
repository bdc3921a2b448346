-- ===== src/Controller.antt =====
-- src/controller/mod.rs: the controller of a cluster, without its sockets and its lock.
pub mod State
pub mod Elect
pub mod Handle
pub mod Snapshot
mod Tests
