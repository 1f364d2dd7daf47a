-- ===== src/Fallback.antt =====
-- agent_txn/fallback_commit_log.h and fallback_commit_recovery.h: the artifact of a crash-safe
-- fallback commit and its recovery.
pub mod Disk
pub mod Artifact
pub mod Persist
pub mod Recovery
pub mod Forward
pub mod Backward
pub mod Durable
pub mod Commits
pub mod Detect
pub mod RollForward
pub mod Parser
pub mod RoundTrip
pub mod Driver
pub mod Recovered
pub mod Bounds
pub mod Directory
