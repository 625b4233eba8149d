-- ===== src/Graceful.antt =====
-- The package graceful.
pub mod Listener
pub mod Signal
pub mod Middleware
pub mod Server
