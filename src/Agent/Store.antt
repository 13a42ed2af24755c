-- ===== src/Agent/Store.antt =====
-- The slot store of a node: agent/src/store.rs.
pub mod Names
pub mod ProjectId
pub mod Slots
pub mod Publish
pub mod Reclaim
pub mod Pool
