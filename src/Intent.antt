-- ===== src/Intent.antt =====
-- intent/: semantic write intents, their log, and the policy by which a commit resolves them.
pub mod Types
pub mod Log
pub mod Number
pub mod Policy
pub mod Rebase
