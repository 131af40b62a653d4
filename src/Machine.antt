-- ===== src/Machine.antt =====
-- The hall as a machine on one host, src/client/hall-machine.ts: seats are offered, not given.
pub mod Defs
pub mod Calls
pub mod Tick
pub mod Places
pub mod Covered
pub mod Fill
pub mod Kept
pub mod Taken
pub mod Ticked
pub mod Timely
pub mod Runs
pub mod Examples
