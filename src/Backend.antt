-- ===== src/Backend.antt =====
-- The backend that keeps everything in memory: crates/lib/src/backend/database/in_memory/.
pub mod Assoc
pub mod Error
pub mod Storage
pub mod Walk
pub mod Traversal
pub mod Reachable
pub mod Cache
mod Tests
