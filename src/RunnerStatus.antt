-- ===== src/RunnerStatus.antt =====
-- The runner status controller: controller/src/controllers/runner_status.
pub mod Detail
pub mod Bound
pub mod Observed
pub mod Upsert
pub mod Startup
pub mod Poll
pub mod Reconcile
mod Examples
