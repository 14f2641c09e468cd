-- ===== src/Sync.antt =====
-- server/sync: the sync service.
pub mod Failure
pub mod Push
pub mod Pull
pub mod Envelopes
pub mod Cleaners
pub mod OfflineMonitor
pub mod Hub
