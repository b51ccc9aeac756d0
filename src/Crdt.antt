-- ===== src/Crdt.antt =====
-- The CRDT document: crates/lib/src/crdt/.
pub mod Position
pub mod Key
pub mod Value
pub mod Merge
pub mod Path
pub mod Container
pub mod Doc
mod Tests
pub mod Items
