-- ===== src/Examples.antt =====
-- examples/universal: programs with a state of their own, z_sub_thr.cxx and z_storage.cxx.
pub mod Throughput
pub mod Rounds
pub mod Storage
pub mod Latest
mod Tests
