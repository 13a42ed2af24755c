-- ===== src/Api.antt =====
-- The custom resources of the api crate (api/src/crd.rs, meta.rs, conditions.rs) and, as records of
-- the fields that the program reads, the Kubernetes objects that come from k8s_openapi.
pub mod Meta
pub mod Pod
pub mod Quantity
pub mod Workspace
pub mod Runner
pub mod Budget
pub mod Pool
pub mod Selector
mod Examples
