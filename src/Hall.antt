-- ===== src/Hall.antt =====
-- The hall that src/network/room-events.ts derives from a list of events.
pub mod Defs
pub mod Derive
pub mod Count
pub mod Expiry
pub mod Moves
pub mod Invariant
pub mod Chat
pub mod Live
pub mod Examples
