-- ===== src/Storage.antt =====
-- storage/: the versioned key-value interface and its in-memory implementations.
pub mod Interface
pub mod Contract
pub mod Memory
pub mod NonBatch
pub mod Laws
pub mod Batch
pub mod File
