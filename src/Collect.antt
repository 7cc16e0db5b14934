-- ===== src/Collect.antt =====
-- collect/: readings of the host's containers, and the snapshot.
pub mod Cpu
pub mod Docker
pub mod Snapshot
pub mod Host
