-- ===== src/Broker.antt =====
-- src/broker: the parts of a broker that keep state, without its sockets, threads and channels.
pub mod Replica
pub mod Offsets
pub mod Groups
pub mod Partition
pub mod Roles
pub mod Isr
pub mod Serve
pub mod Fetcher
pub mod Topics
mod Tests
