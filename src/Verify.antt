-- ===== src/Verify.antt =====
-- The verification of events that arrive, src/network/room-events.ts.
pub mod Values
pub mod Payloads
pub mod Events
pub mod Passed
pub mod Typed
pub mod Shapes
pub mod Read
pub mod Verified
pub mod Fresh
pub mod Signing
pub mod Signed
pub mod Examples
