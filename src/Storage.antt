-- ===== src/Storage.antt =====
-- internal/storage: the contracts that every sorted storage component shares.
pub mod Sorting
pub mod Key
pub mod Batch
pub mod Bloom
pub mod Manifest
pub mod Wal
pub mod Compaction
