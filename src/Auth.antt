-- ===== src/Auth.antt =====
-- auth.rs: passkey sign-in for the dashboard.
pub mod Crates
pub mod State
pub mod Ceremony
pub mod Session
pub mod Persist
pub mod Register
pub mod Login
pub mod Pages
pub mod Run
pub mod Concurrent
