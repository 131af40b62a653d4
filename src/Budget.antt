-- ===== src/Budget.antt =====
-- What verification may take of a node, src/network/resource-budget.ts.
pub mod Queue
pub mod Examples
