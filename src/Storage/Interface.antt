-- ===== src/Storage/Interface.antt =====
-- storage/versioned_kv_store.h: the abstract class is a record of operations on a state type. A
-- call that may change the store returns the new state before its result.
use data_agent_system.Prelude.{ℕ, Text, Bool, List}

pub record VersionedValue : Type 0 where
  pub value : Text
  pub version : ℕ
  pub exists : Bool

pub record VersionCheck : Type 0 where
  pub key : Text
  pub expected_version : ℕ

pub record WriteOp : Type 0 where
  pub key : Text
  pub value : Text

pub record VersionedKvStore (S : Type 0) : Type 0 where
  pub supports_atomic_batch_conditional_write : Bool
  pub get : Text → S → VersionedValue
  pub get_version : Text → S → ℕ
  pub put : Text → Text → S → S × Bool
  pub put_if_version : Text → ℕ → Text → S → S × Bool
  pub delete_if_version : Text → ℕ → S → S × Bool
  pub batch_put_if_version : List VersionCheck → List WriteOp → S → S × Bool
