-- ===== src/Ledger.antt =====
-- `RoomEventLedger` of src/network/room-events.ts.
pub mod Defs
pub mod Accept
pub mod Snapshot
pub mod Calls
pub mod Indexes
pub mod Origins
pub mod Invariant
pub mod Retention
pub mod Views
pub mod Sources
pub mod Admission
pub mod Examples
