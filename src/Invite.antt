-- ===== src/Invite.antt =====
-- Invite codes of the hall, src/network/invite.ts.
pub mod Dial
pub mod Defs
pub mod Decoded
pub mod Kept
pub mod Round
pub mod Examples
