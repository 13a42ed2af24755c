-- ===== src/Pool.antt =====
-- The pool controller: controller/src/controllers/pool. Fleet sorts the pods of a pool by what is
-- to become of them, WarmPod mints new ones, Reconcile is one pass of the controller.
pub mod Fleet
pub mod WarmPod
pub mod Reconcile
pub mod Careful
pub mod Minted
mod Examples
