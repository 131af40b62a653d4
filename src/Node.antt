-- ===== src/Node.antt =====
-- The bookkeeping of `CarbonClubNode` in src/network/node.ts.
pub mod Limits
pub mod Grants
pub mod Waits
pub mod Peers
pub mod Remembered
pub mod Recalled
pub mod Presence
pub mod Session
pub mod Sessions
pub mod Posted
pub mod Kept
pub mod Admitted
pub mod Examples
pub mod SessionExamples
