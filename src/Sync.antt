-- ===== src/Sync.antt =====
-- What the synchronisation keeps, and decides: crates/lib/src/sync/.
pub mod BootstrapRequests
pub mod Queue
pub mod SettingsMerge
mod Tests
