-- ===== src/Session.antt =====
-- crates/quosh-server/src/session.rs: one remote shell. The bytes on their way to its terminal, the
-- echo checkpoint, and the owner that takes the commands of its clients.
pub mod Pending
pub mod Handle
pub mod Owner
