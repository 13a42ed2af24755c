-- ===== src/Indexer.antt =====
-- The indexer: indexer/src.
pub mod Paths
pub mod Dotenv
pub mod Restore
mod Examples
