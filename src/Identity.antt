-- ===== src/Identity.antt =====
-- The credentials of a node, src/network/identity.ts.
pub mod Defs
pub mod Stored
pub mod Examples
