-- ===== src/Storage.antt =====
-- storage/: the write-ahead log.
pub mod Entry
pub mod Wal
pub mod Store
