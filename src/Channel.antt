-- ===== src/Channel.antt =====
-- packages/claude-channel/src: how the events of a project reach the channel.
pub mod Pump
pub mod Queue
pub mod Scenarios
