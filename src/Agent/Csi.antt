-- ===== src/Agent/Csi.antt =====
-- The CSI node plugin: agent/src/csi.rs.
pub mod Keyed
pub mod Node
pub mod Late
pub mod Keeps
pub mod Watchers
pub mod Provision
pub mod Publish
pub mod Unpublish
mod Examples
