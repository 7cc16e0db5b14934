-- ===== src/Web.antt =====
-- web.rs: the HTTP surface.
pub mod Compare
pub mod Gate
pub mod Health
pub mod Series
pub mod Router
pub mod App
