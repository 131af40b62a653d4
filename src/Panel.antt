-- ===== src/Panel.antt =====
-- The stores of the browser panel, src/client.
pub mod Store
pub mod Stale
pub mod Merge
pub mod Merged
pub mod Taken
pub mod Examples
