-- ===== src/Cache/Savepoint.antt =====
-- cache/savepoint.h
use data_agent_system.Prelude.{ℕ, Text}

pub record Savepoint : Type 0 where
  pub savepoint_id : Text
  pub write_log_position : ℕ
  pub intent_log_position : ℕ
