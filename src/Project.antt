-- ===== src/Project.antt =====
-- Project rooms, src/network/project-crypto.ts: encrypted payloads for those who hold an invite.
pub mod Defs
pub mod Laws
pub mod Examples
