-- ===== src/Relay.antt =====
-- The community relay, scripts/community-relay.mjs.
pub mod Settings
pub mod Defs
pub mod Windows
pub mod Counted
pub mod Runs
pub mod Examples
