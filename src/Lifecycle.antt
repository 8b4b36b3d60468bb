-- ===== src/Lifecycle.antt =====
-- src/lifecycle.rs: socket activation, and the lifetime of requests and their bodies.
pub mod Listener
pub mod Activity
pub mod Idle
pub mod Body
