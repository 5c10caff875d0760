-- ===== src/Session.antt =====
-- handler/session.rs
pub mod State
pub mod Login
pub mod Files
pub mod Names
pub mod Transfer
pub mod Retrieve
pub mod Store
pub mod Dispatch
pub mod Examples
