-- ===== src/Branch/Context.antt =====
-- branch/branch_context.h and branch/branch_result.h. A score is a `double`: its type `D` is a
-- parameter, with what the code uses of it.
use data_agent_system.Prelude.{ℕ, Text, Bool, List}
use data_agent_system.Prelude.Int.{ℤ}
use data_agent_system.Cache.ReadSet.{ReadSet}
use data_agent_system.Cache.Savepoint.{Savepoint}
use data_agent_system.Cache.WriteBuffer.{WriteBuffer}
use data_agent_system.Intent.Log.{IntentLog}

-- `0.0` and `<` of `double`.
pub record Double (D : Type 0) : Type 0 where
  pub zero : D
  pub less : D → D → Bool

-- The casts between `double` and `std::int64_t`.
pub record Casts (D : Type 0) : Type 0 where
  pub of_int : ℤ → D
  pub truncate : D → ℤ

pub data BranchStatus : Type 0 where
  created running staged winner loser committed discarded aborted : BranchStatus

pub record CandidateResult (D : Type 0) : Type 0 where
  pub score : D
  pub summary : Text

pub record BranchContext (D : Type 0) : Type 0 where
  pub branch_id : Text
  pub status : BranchStatus
  pub read_set : ReadSet
  pub write_buffer : WriteBuffer
  pub intent_log : IntentLog
  pub candidate_result : CandidateResult D
  pub savepoints : List Savepoint

pub record ReadResult : Type 0 where
  pub value : Text
  pub version : ℕ
  pub exists : Bool
