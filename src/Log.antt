-- ===== src/Log.antt =====
-- The commit logs: their text, and the recovery from them.
pub mod Escape
pub mod Lines
pub mod Artifact
pub mod Recovery
pub mod Redo
pub mod RoundTrip
