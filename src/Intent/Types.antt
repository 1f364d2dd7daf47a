-- ===== src/Intent/Types.antt =====
-- intent/intent_type.h and intent/intent.h
use data_agent_system.Prelude.{Text}

pub data IntentType : Type 0 where
  read overwrite append delta cas : IntentType

pub data ConditionType : Type 0 where
  unconditional value_equals : ConditionType

pub record Condition : Type 0 where
  pub type : ConditionType
  pub expected_value : Text

pub record WriteIntent : Type 0 where
  pub object_id : Text
  pub intent_type : IntentType
  pub payload : Text
  pub condition : Condition

abbrev pub IsRead : IntentType → Type 0
IsRead read = Unit {0}
IsRead _ = ⊥
