-- ===== src/Tests.antt =====
-- The results at concrete inputs.
mod Data
mod Intents
mod Buffers
mod Stores
mod Commits
mod Runtime
mod Events
mod Files
