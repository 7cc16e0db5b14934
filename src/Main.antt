-- ===== src/Main.antt =====
-- main.rs.
pub mod Startup
pub mod Points
pub mod Loop
pub mod Daemon
pub mod Run
