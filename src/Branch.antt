-- ===== src/Branch.antt =====
-- branch/ and agent_txn/rollback_manager.h: the candidate branches of a transaction.
pub mod Context
pub mod Manager
pub mod Rollback
pub mod Steps
pub mod Anchor
pub mod Savepoints
pub mod Winner
