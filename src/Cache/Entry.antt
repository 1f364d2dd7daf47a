-- ===== src/Cache/Entry.antt =====
-- cache/object_cache.h
use data_agent_system.Prelude.{ℕ, Bool, Text}
use data_agent_system.Intent.Types.{IntentType}

pub data ObjectType : Type 0 where
  generic row text candidate_result : ObjectType

pub record UndoRecord : Type 0 where
  pub previous_value : Text
  pub existed : Bool

pub record ObjectCacheEntry : Type 0 where
  pub object_id : Text
  pub object_type : ObjectType
  pub base_value : Text
  pub base_version : ℕ
  pub current_value : Text
  pub dirty : Bool
  pub intent_type : IntentType
  pub undo_record : UndoRecord
