-- ===== src/Bridge.antt =====
-- packages/codex-bridge/src: what the bridge to the Codex app-server decides without its transport.
pub mod Fuse
pub mod Drain
pub mod Backoff
pub mod Scenarios
