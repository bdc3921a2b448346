-- ===== src/Harness.antt =====
-- src/harness: the parts of the test harness that compute.
pub mod Rng
mod Tests
