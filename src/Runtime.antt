-- ===== src/Runtime.antt =====
-- runtime/: tasks, their plans and their sessions.
pub mod Task
pub mod Plan
pub mod Session
pub mod EventWriter
pub mod EventReader
pub mod Decision
pub mod RecoveryPlan
pub mod RecoveredSession
pub mod Execution
pub mod Operations
pub mod Maintenance
pub mod Startup
pub mod Commit
pub mod Rebuild
pub mod LogDirectory
pub mod Resume
pub mod Continuation
pub mod EventRoundTrip
pub mod LogFields
pub mod LogRoundTrip
pub mod LogMetadata
pub mod Decided
pub mod DecisionLaws
pub mod EndTests
pub mod Verdict
pub mod NeverRerun
pub mod Coherent
pub mod Numbered
pub mod Sweep
