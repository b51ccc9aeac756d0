-- ===== src/Backend/Traversal.antt =====
-- Finding the way in the graph of a tree: crates/lib/src/backend/database/in_memory/traversal.rs.
pub mod MergeBase
pub mod Paths
pub mod Snapshot
