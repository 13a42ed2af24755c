-- ===== src/Runner.antt =====
-- The runner controller: controller/src/controllers/runner. Eligible says which runners may claim
-- from a pool, Winner which of two claims of a workspace stays, Claim claims a warm pod.
pub mod Sources
pub mod Eligible
pub mod Winner
pub mod Claim
pub mod Careful
pub mod Races
pub mod Reconcile
mod Examples
