-- ===== src/Cmd.antt =====
-- handler/cmd.rs and handler/error.rs: answers with their codes, and commands.
pub mod Code
pub mod Error
pub mod Answer
pub mod Command
pub mod Keyword
pub mod Port
pub mod Parse
mod Examples
