-- ===== src/Store.antt =====
-- store.rs: the time-series store.
pub mod Buckets
pub mod Table
pub mod Compact
pub mod Open
