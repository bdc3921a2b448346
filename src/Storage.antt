-- ===== src/Storage.antt =====
-- src/storage: records on disk, segments with their sparse index, the log of a partition and its
-- leader-epoch checkpoint. Disk operations succeed: I/O errors are not modelled.
pub mod Record
pub mod Config
pub mod Epoch
pub mod Index
pub mod Segment
pub mod Log
mod Tests
