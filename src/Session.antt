-- ===== src/Session.antt =====
-- src/fixt/engine_thread.rs: the session layer, by which the engine's thread drives a connection.
pub mod Fixt
pub mod Status
pub mod Dictionary
pub mod State
pub mod Logout
pub mod Resend
pub mod Inbound
pub mod Calm
pub mod ParseErrors
pub mod Reading
pub mod Writing
pub mod Requests
pub mod Timeouts
pub mod Thread
