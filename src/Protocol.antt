-- ===== src/Protocol.antt =====
-- packages/protocol: the rules that every part of the program shares.
pub mod Task
pub mod Progress
pub mod Push
pub mod Recipients
pub mod Scenarios
