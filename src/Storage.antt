-- ===== src/Storage.antt =====
-- src/storage: the operation log, the row store, snapshots and compaction.
pub mod RowStore
pub mod Compaction
pub mod Snapshots
pub mod OpLog
