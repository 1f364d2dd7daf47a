-- ===== src/Runtime/Operations.antt =====
-- The operations of `TaskRuntime` of runtime/task_runtime.h on one session. A method that takes a
-- session by reference returns the new session; an exception is its message.
use data_agent_system.Prelude.{
  ℕ, Text, Bool, true, false, List, [], ◌∷◌, ◌++◌, none, some, ◌||◌, codes, text_eq, is_empty,
  if◌then◌else◌,
}
use data_agent_system.Prelude.Int.{pos, wrap_int64}
use data_agent_system.Intent.Types.{IntentType, WriteIntent, read, overwrite, append, delta, cas}
use data_agent_system.Cache.Entry.{ObjectType}
use data_agent_system.Storage.Interface.{VersionedKvStore}
use data_agent_system.Branch.Context.{BranchContext, Double, Casts, ReadResult}
use data_agent_system.Branch.Manager as BranchManager
use data_agent_system.Branch.Rollback as Rollback
use data_agent_system.Txn.Context.{AgentTxnContext}
use data_agent_system.Txn.Manager as TxnManager
use data_agent_system.Runtime.Task.{TaskContext, validate_task}
use data_agent_system.Runtime.Plan.{ExecutionPlan, BranchPlan, validate_plan}
use data_agent_system.Runtime.Session.{TaskSession, record_event, mark_running, mark_aborted}
use data_agent_system.Runtime.Session as Event

pub data Result (A : Type 0) : Type 0 where
  threw : Text → Result A
  returned : A → Result A

pub data FallbackTerminalArtifactPolicy : Type 0 where
  keep delete archive : FallbackTerminalArtifactPolicy

pub record FallbackCommitRuntimeConfig : Type 0 where
  pub artifact_dir : Text
  pub archive_dir : Text
  pub auto_recover_on_startup : Bool
  pub committed_artifact_policy : FallbackTerminalArtifactPolicy
  pub rolled_back_artifact_policy : FallbackTerminalArtifactPolicy

-- `static_cast<std::int64_t>(intent_type)`
unfoldable pub intent_number : IntentType → ℕ
intent_number read = 0
intent_number overwrite = 1
intent_number append = 2
intent_number delta = 3
intent_number cas = 4

module _ {D : Type 0} where
  -- `FindBranch`, and a change through the pointer that it returns; `otherwise` for `nullptr`.
  unfoldable pub on_branch :
      {A : Type 0}
      → Text
      → (BranchContext D → BranchContext D × A)
      → A
      → List (BranchContext D)
      → List (BranchContext D) × A
  on_branch branch_id change otherwise [] = ([], otherwise)
  on_branch branch_id change otherwise (b ∷ branches) =
      let (b', result) = change b in
      let (branches', other) = on_branch branch_id change otherwise branches in
      if text_eq b.branch_id branch_id then (b' ∷ branches, result) else (b ∷ branches', other)

  unfoldable pub on_txn :
      {A : Type 0}
      → Text
      → (BranchContext D → BranchContext D × A)
      → A
      → AgentTxnContext D
      → AgentTxnContext D × A
  unfolding on_branch
  on_txn branch_id change otherwise txn =
      let (branches, result) = on_branch branch_id change otherwise txn.branches in
      (record txn { branches = branches }, result)

  -- A change that returns nothing.
  quietly : (BranchContext D → BranchContext D) → BranchContext D → BranchContext D × Bool
  quietly change b = (change b, true)

  -- The overloads on a transaction.
  unfoldable pub read_txn :
      {S : Type 0}
      → VersionedKvStore S
      → S
      → Text
      → Text
      → AgentTxnContext D
      → AgentTxnContext D × ReadResult
  unfolding on_txn
  read_txn kv store branch_id object_id =
      on_txn branch_id (BranchManager.read_object kv store object_id)
        (record { value = []; version = 0; exists = false })

  unfoldable pub write_txn :
      {S : Type 0}
      → VersionedKvStore S
      → S
      → Text
      → Text
      → ObjectType
      → WriteIntent
      → AgentTxnContext D
      → AgentTxnContext D
  unfolding on_txn quietly
  write_txn kv store branch_id object_id object_type intent txn =
      (on_txn branch_id (quietly (BranchManager.buffer_write kv store object_id object_type intent))
        false txn).0

  unfoldable pub savepoint_txn : Text → Text → AgentTxnContext D → AgentTxnContext D
  unfolding on_txn quietly
  savepoint_txn branch_id savepoint_id txn =
      (on_txn branch_id (quietly (BranchManager.create_savepoint savepoint_id)) false txn).0

  unfoldable pub rollback_txn : Text → Text → AgentTxnContext D → AgentTxnContext D × Bool
  unfolding on_txn
  rollback_txn branch_id savepoint_id =
      on_txn branch_id (Rollback.rollback_to_savepoint savepoint_id) false

  unfoldable pub stage_txn : Text → D → Text → AgentTxnContext D → AgentTxnContext D
  unfolding on_txn quietly
  stage_txn branch_id score summary txn =
      (on_txn branch_id (quietly (BranchManager.stage_branch score summary)) false txn).0

  -- The operations on a session, each of which records an event.
  unfoldable pub read_object :
      {S : Type 0}
      → VersionedKvStore S
      → S
      → Text
      → Text
      → TaskSession D
      → TaskSession D × ReadResult
  unfolding read_txn record_event
  read_object kv store branch_id object_id s =
      let (txn, result) = read_txn kv store branch_id object_id s.txn in
      (
        record_event Event.read branch_id object_id result.value (wrap_int64 (pos result.version))
            (record s { txn = txn }),
        result,
      )

  unfoldable pub write_object :
      {S : Type 0}
      → VersionedKvStore S
      → S
      → Text
      → Text
      → ObjectType
      → WriteIntent
      → TaskSession D
      → TaskSession D
  unfolding write_txn record_event intent_number
  write_object kv store branch_id object_id object_type intent s =
      record_event Event.write branch_id object_id intent.payload
        (pos (intent_number intent.intent_type))
        (record s { txn = write_txn kv store branch_id object_id object_type intent s.txn })

  unfoldable pub create_savepoint : Text → Text → TaskSession D → TaskSession D
  unfolding savepoint_txn record_event
  create_savepoint branch_id savepoint_id s =
      record_event Event.savepoint branch_id [] savepoint_id (pos 0)
        (record s { txn = savepoint_txn branch_id savepoint_id s.txn })

  unfoldable pub rollback_to_savepoint : Text → Text → TaskSession D → TaskSession D × Bool
  unfolding rollback_txn record_event
  rollback_to_savepoint branch_id savepoint_id s =
      let (txn, rolled_back) = rollback_txn branch_id savepoint_id s.txn in
      let s' : TaskSession D = record s { txn = txn } in
      if rolled_back
      then (record_event Event.rollback_to_savepoint branch_id [] savepoint_id (pos 0) s', true)
      else (s', false)

  unfoldable pub abort_task : TaskSession D → TaskSession D
  unfolding record_event mark_aborted
  abort_task s =
      record_event Event.abort_task [] [] (codes "abort_requested") (pos 0)
        (mark_aborted (record s { txn = TxnManager.abort_transaction s.txn }))

module _ {D : Type 0} (casts : Casts D) where
  unfoldable pub stage_branch : Text → D → Text → TaskSession D → TaskSession D
  unfolding stage_txn record_event
  stage_branch branch_id score summary s =
      record_event Event.stage_branch branch_id [] summary (casts.truncate score)
        (record s { txn = stage_txn branch_id score summary s.txn })

module _ {D S : Type 0} (fp : Double D) (casts : Casts D) (kv : VersionedKvStore S)
    (config : FallbackCommitRuntimeConfig) where
  unfoldable pub configure_fallback_commit : AgentTxnContext D → AgentTxnContext D
  configure_fallback_commit txn =
      if is_empty config.artifact_dir || kv.supports_atomic_batch_conditional_write
      then txn
      else record txn {
        fallback_commit = record txn.fallback_commit {
          artifact_path = config.artifact_dir ++ b'/' ∷ txn.txn_id ++ codes ".fallback.log";
        };
      }

  -- The loop of `SubmitTask`.
  unfoldable pub create_branches : List (BranchPlan D) → TaskSession D → TaskSession D
  unfolding record_event
  create_branches [] s = s
  create_branches (p ∷ plans) s = create_branches plans (
      record_event Event.create_branch p.branch_id [] p.candidate_id
        (casts.truncate p.initial_priority)
        (record s { txn = TxnManager.create_branch fp p.branch_id s.txn }))

  unfoldable pub submit_valid_task : TaskContext → ExecutionPlan D → TaskSession D
  unfolding configure_fallback_commit create_branches record_event mark_running
  submit_valid_task task plan =
      let txn =
        configure_fallback_commit
          (TxnManager.begin fp (codes "txn:" ++ task.task_id) task.task_id) in
      let s = record_event Event.submit_task [] [] task.objective (pos 0) (record {
        task = task;
        plan = plan;
        txn = txn;
        commit_attempts = 0;
        is_committed = false;
        events = [];
      }) in
      mark_running (create_branches plan.branch_plans s)

  -- `Validate` of the task comes first.
  unfoldable pub submit_task : TaskContext → ExecutionPlan D → Result (TaskSession D)
  unfolding submit_valid_task validate_task validate_plan
  submit_task task plan = elim (validate_task task) [
    | some message ↦ threw message
    | none ↦ elim (validate_plan plan) [
      | some message ↦ threw message
      | none ↦ returned (submit_valid_task task plan)
    ]
  ]
