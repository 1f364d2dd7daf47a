-- ===== src/Cache.antt =====
-- cache/: what a branch has read and buffered.
pub mod Entry
pub mod ReadSet
pub mod Savepoint
pub mod WriteBuffer
