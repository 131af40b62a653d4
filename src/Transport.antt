-- ===== src/Transport.antt =====
-- What a node does with its transport, src/network/node.ts: gossip, sync, invitations, publishing.
pub mod Defs
pub mod Sync
pub mod Publish
pub mod Gathered
pub mod Chosen
pub mod Answered
pub mod Exchange
pub mod Same
pub mod Kept
pub mod Bounded
pub mod Calls
pub mod Runs
pub mod Sound
pub mod Arrived
pub mod Started
pub mod Called
pub mod Reached
pub mod Connect
pub mod Invited
pub mod Told
pub mod Connected
pub mod Examples
pub mod InviteExamples
