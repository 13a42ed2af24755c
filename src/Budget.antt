-- ===== src/Budget.antt =====
-- The budget controller: controller/src/controllers/budget/mod.rs.
pub mod Committed
pub mod Sum
pub mod Allowance
pub mod Reconcile
mod Examples
