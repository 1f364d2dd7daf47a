-- ===== src/Runtime/Rebuild.antt =====
-- The recovery of a session from its event log in `TaskRuntime` of runtime/task_runtime.h: the
-- events are replayed on a new transaction.
use data_agent_system.Prelude.{
  ℕ, ◌==◌, ◌%◌, ◌-◌, ◌^◌, Text, Bool, true, false, List, [], ◌∷◌, ◌++◌, Option, none, some, codes,
  text_eq, map, if◌then◌else◌,
}
use data_agent_system.Prelude.Int.{ℤ, pos, negsuc}
use data_agent_system.Prelude.Map.{Map, find}
use data_agent_system.Log.Lines.{strtoull}
use data_agent_system.Intent.Types.{IntentType, read, overwrite, append, delta, cas, unconditional}
use data_agent_system.Cache.Entry.{generic}
use data_agent_system.Cache.ReadSet as ReadSet
use data_agent_system.Storage.Interface.{VersionedKvStore}
use data_agent_system.Branch.Context.{BranchContext, Double, Casts}
use data_agent_system.Branch.Context as Branch
use data_agent_system.Txn.Context.{AgentTxnContext}
use data_agent_system.Txn.Context as Txn
use data_agent_system.Runtime.LogDirectory.{list_task_logs}
use data_agent_system.Runtime.Task as Task
use data_agent_system.Runtime.Session.{TaskSession, TaskEventType}
use data_agent_system.Runtime.Session as Event
use data_agent_system.Runtime.EventReader.{
  ParsedTaskEvent, ParsedTaskEventLogArtifact, parse_task_event_log_artifact,
}
use data_agent_system.Runtime.Decision.{task_event_type_from_name}
use data_agent_system.Runtime.RecoveryPlan.{TaskRecoveryPlan, build_task_recovery_plan}
use data_agent_system.Runtime.RecoveredSession.{
  RecoveredTaskSession, event_of_parsed, is_retry, recover_task_session_from_artifact,
}
use data_agent_system.Runtime.Execution.{
  TaskRecoveryExecution, build_task_recovery_execution, build_task_recovery_executions,
}
use data_agent_system.Runtime.Operations.{
  Result, threw, returned, FallbackCommitRuntimeConfig, on_txn, write_txn, savepoint_txn,
  rollback_txn, stage_txn, submit_task,
}

-- The `switch` of `IntentTypeFromPersistedValue` on a number that is not negative.
intent_of_number : ℕ → IntentType
intent_of_number n =
    if n == 0
    then read
    else if n == 1
    then overwrite
    else if n == 2
    then append
    else if n == 3
    then delta
    else if n == 4
    then cas
    else overwrite

unfoldable pub intent_type_from_persisted_value : ℤ → IntentType
unfolding intent_of_number
intent_type_from_persisted_value (pos n) = intent_of_number n
intent_type_from_persisted_value (negsuc n) = overwrite

-- `static_cast<std::uint64_t>`
unfoldable pub as_uint64 : ℤ → ℕ
as_uint64 (pos n) = n % 2 ^ 64
as_uint64 (negsuc n) = 2 ^ 64 - 1 - n % 2 ^ 64

module _ {D S : Type 0} (casts : Casts D) (kv : VersionedKvStore S) where
  note_read : Text → ℤ → BranchContext D → BranchContext D × Bool
  note_read object_id version b = (
    record b {
      status = Branch.running;
      read_set = ReadSet.record_read object_id (as_uint64 version) b.read_set;
    },
    true,
  )

  -- The `switch` of the loop, by the type of the event.
  unfoldable pub replay_event :
      S → TaskEventType → ParsedTaskEvent → AgentTxnContext D → AgentTxnContext D
  unfolding note_read as_uint64 on_txn write_txn savepoint_txn rollback_txn stage_txn
      intent_type_from_persisted_value
  replay_event store Event.read e txn =
      (on_txn e.branch_id (note_read e.object_id e.numeric_value) false txn).0
  replay_event store Event.write e txn =
      write_txn kv store e.branch_id e.object_id generic
        (record {
          object_id = e.object_id;
          intent_type = intent_type_from_persisted_value e.numeric_value;
          payload = e.detail;
          condition = record { type = unconditional; expected_value = [] };
        })
        txn
  replay_event store Event.savepoint e txn = savepoint_txn e.branch_id e.detail txn
  replay_event store Event.rollback_to_savepoint e txn = (rollback_txn e.branch_id e.detail txn).0
  replay_event store Event.stage_branch e txn =
      stage_txn e.branch_id (casts.of_int e.numeric_value) e.detail txn
  replay_event store _ e txn = txn

  unfoldable pub replay_all : S → List ParsedTaskEvent → AgentTxnContext D → AgentTxnContext D
  unfolding replay_event task_event_type_from_name
  replay_all store [] txn = txn
  replay_all store (e ∷ events) txn =
      replay_all store events (replay_event store (task_event_type_from_name e.event_type) e txn)

-- The changes of `ApplyRecoveredTerminalState` to a branch: the one to resume, and the others.
unfoldable pub mark_recovered :
    {D : Type 0}
    → Text
    → Branch.BranchStatus
    → Option Branch.BranchStatus
    → BranchContext D
    → BranchContext D
mark_recovered branch_id status others b =
    if text_eq b.branch_id branch_id
    then record b { status = status }
    else elim others [ none ↦ b | some other ↦ record b { status = other } ]

module _ {D : Type 0} where
  set_state :
      Txn.TxnStatus
      → Task.TaskPhase
      → (BranchContext D → BranchContext D)
      → TaskSession D
      → TaskSession D
  set_state status phase change s = record s {
    task = record s.task { phase = phase };
    txn = record s.txn { status = status; branches = map change s.txn.branches };
  }

  unfoldable pub apply_recovered_terminal_state : RecoveredTaskSession D → RecoveredTaskSession D
  unfolding mark_recovered set_state is_retry
  apply_recovered_terminal_state recovered =
      let s = recovered.session in
      let decision = recovered.recovery_plan.decision in
      let mark = mark_recovered decision.resume_branch_id in
      record recovered {
        session =
            if s.is_committed
            then set_state Txn.committed Task.committed
                (mark Branch.committed (some Branch.discarded)) s
            else if is_retry decision.action
            then set_state Txn.aborted Task.aborted (mark Branch.aborted (some Branch.discarded)) s
            else set_state Txn.running Task.running (mark Branch.running none) s;
      }

abbrev pub failed_log : Text → Text
failed_log path = codes "failed to parse task event log: " ++ path

-- The message is the library's, and not modelled.
abbrev pub missing_key : Text
missing_key = codes "no such key"

unfoldable pub of_option : {A : Type 0} → Text → Option A → Result A
of_option message none = threw message
of_option message (some a) = returned a

unfoldable pub and_then : {A B : Type 0} → Result A → (A → Result B) → Result B
and_then (threw message) f = threw message
and_then (returned a) f = f a

module _ {D S : Type 0} (fp : Double D) (casts : Casts D) (kv : VersionedKvStore S)
    (config : FallbackCommitRuntimeConfig) where
  -- `RebuildRecoveredSessionState`
  unfoldable pub rebuild_recovered_session_state :
      S → ParsedTaskEventLogArtifact → TaskSession D → Result (TaskSession D)
  unfolding submit_task replay_all strtoull event_of_parsed and_then of_option
  rebuild_recovered_session_state store artifact s =
      and_then (submit_task fp casts kv config s.task s.plan) λ rebuilt.
        and_then (of_option missing_key (find (codes "commit_attempts") artifact.metadata))
          λ commit_attempts.
            and_then (of_option missing_key (find (codes "committed") artifact.metadata)) λ flag.
              returned (record rebuilt {
                txn = replay_all casts kv store artifact.events rebuilt.txn;
                commit_attempts = strtoull commit_attempts;
                is_committed = text_eq flag (codes "1");
                events = map event_of_parsed artifact.events;
              })

  unfoldable pub load_recovery_plan_from_log : Map Text → Text → Result (TaskRecoveryPlan D)
  unfolding parse_task_event_log_artifact build_task_recovery_plan
  load_recovery_plan_from_log files path = elim (parse_task_event_log_artifact files path) [
    | none ↦ threw (failed_log path)
    | some artifact ↦ returned (build_task_recovery_plan fp casts path artifact)
  ]

  unfoldable pub recover_session_of_artifact :
      S → Text → ParsedTaskEventLogArtifact → Result (RecoveredTaskSession D)
  unfolding recover_task_session_from_artifact rebuild_recovered_session_state
      apply_recovered_terminal_state and_then of_option
  recover_session_of_artifact store path artifact =
      and_then (of_option missing_key (recover_task_session_from_artifact fp casts path artifact))
        λ recovered.
          and_then (rebuild_recovered_session_state store artifact recovered.session)
            λ s. returned (apply_recovered_terminal_state (record recovered { session = s }))

  unfoldable pub recover_session_from_log : S → Map Text → Text → Result (RecoveredTaskSession D)
  unfolding parse_task_event_log_artifact recover_session_of_artifact
  recover_session_from_log store files path = elim (parse_task_event_log_artifact files path) [
    | none ↦ threw (failed_log path)
    | some artifact ↦ recover_session_of_artifact store path artifact
  ]

  unfoldable pub recover_sessions :
      S → Map Text → List Text → Result (List (RecoveredTaskSession D))
  unfolding recover_session_from_log and_then
  recover_sessions store files [] = returned []
  recover_sessions store files (path ∷ paths) =
      and_then (recover_session_from_log store files path) λ recovered.
        and_then (recover_sessions store files paths) λ sessions. returned (recovered ∷ sessions)

  unfoldable pub recover_sessions_from_directory :
      S → Map Text → Text → Result (List (RecoveredTaskSession D))
  unfolding recover_sessions list_task_logs
  recover_sessions_from_directory store files dir =
      recover_sessions store files (list_task_logs dir files)

  unfoldable pub build_recovery_execution_from_log :
      S → Map Text → Text → Result (TaskRecoveryExecution D)
  unfolding recover_session_from_log and_then build_task_recovery_execution
  build_recovery_execution_from_log store files path =
      and_then (recover_session_from_log store files path)
        λ recovered. returned (build_task_recovery_execution recovered)

  unfoldable pub build_recovery_executions_from_directory :
      S → Map Text → Text → Result (List (TaskRecoveryExecution D))
  unfolding recover_sessions_from_directory and_then build_task_recovery_executions
  build_recovery_executions_from_directory store files dir =
      and_then (recover_sessions_from_directory store files dir)
        λ sessions. returned (build_task_recovery_executions sessions)
