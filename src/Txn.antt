-- ===== src/Txn.antt =====
-- agent_txn/: validation, commit, rollback and the life of a transaction.
pub mod Context
pub mod Validation
pub mod Checks
pub mod Resolve
pub mod Plain
pub mod CrashSafe
pub mod Commit
pub mod Logged
pub mod BatchCommit
pub mod PlainCommit
pub mod FallbackAtomic
pub mod Manager
pub mod Freshness
pub mod LastIntent
pub mod LogContents
pub mod Attempts
pub mod Success
pub mod Recovered
pub mod RecoveryManager
