-- ===== src/Agent.antt =====
-- The node agent: agent/src.
pub mod Slot
pub mod Volume
pub mod Store
pub mod Reaper
pub mod Drain
pub mod Csi
mod Examples
