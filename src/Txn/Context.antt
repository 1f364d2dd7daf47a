-- ===== src/Txn/Context.antt =====
-- agent_txn/agent_txn_context.h
use data_agent_system.Prelude.{
  ℕ, Text, Bool, false, List, [], Option, none, some, is_empty, not, ◌&&◌, if◌then◌else◌,
}
use data_agent_system.Branch.Context.{BranchContext}

pub data TxnStatus : Type 0 where
  running committed aborted : TxnStatus

pub record ValidationResult : Type 0 where
  pub success : Bool
  pub reason : Text

pub record CommitLogEntry : Type 0 where
  pub key : Text
  pub value : Text
  pub expected_version : ℕ

pub record TxnMetrics (D : Type 0) : Type 0 where
  pub branch_count : ℕ
  pub planned_loser_count : ℕ
  pub winner_commit_count : ℕ
  pub real_abort_count : ℕ
  pub conflict_abort_count : ℕ
  pub validation_fail_count : ℕ
  pub retry_count : ℕ
  pub commit_latency_us : D

pub record FallbackCommitConfig : Type 0 where
  pub artifact_path : Text
  pub simulate_crash_after_apply_count : ℕ

-- `commit_log` is its list of entries.
pub record AgentTxnContext (D : Type 0) : Type 0 where
  pub txn_id : Text
  pub task_id : Text
  pub status : TxnStatus
  pub branches : List (BranchContext D)
  pub winner_branch_id : Text
  pub commit_log : List CommitLogEntry
  pub validation_result : ValidationResult
  pub metrics : TxnMetrics D
  pub fallback_commit : FallbackCommitConfig

-- The parameter `ValidationResult* failure`: `none` is the null pointer.
abbrev pub Failure : Type 0
Failure = Option ValidationResult

abbrev pub no_result : ValidationResult
no_result = record { success = false; reason = [] }

-- `if (failure != nullptr) { failure->success = false; failure->reason = …; }`
abbrev pub set_failure : Text → Failure → Failure
set_failure reason none = none
set_failure reason (some r) = some (record { success = false; reason = reason })

-- The same under `failure->reason.empty()`.
abbrev pub set_failure_if_unset : Text → Failure → Failure
set_failure_if_unset reason none = none
set_failure_if_unset reason (some r) =
    if is_empty r.reason then some (record { success = false; reason = reason }) else some r

-- `failure != nullptr && !failure->success && !failure->reason.empty()`
abbrev pub has_failed : Failure → Bool
has_failed none = false
has_failed (some r) = not r.success && not (is_empty r.reason)
