-- ===== src/Hub.antt =====
-- apps/hub: the store behind the Hub.
pub mod Rows
pub mod MessageRows
pub mod Context
pub mod Sessions
pub mod MutationAuthority
pub mod Tasks
pub mod Messages
pub mod Reviews
pub mod Calls
pub mod Scenarios
