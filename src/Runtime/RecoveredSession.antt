-- ===== src/Runtime/RecoveredSession.antt =====
-- runtime/task_recovery.h: the session that a task event log gives back. `none` is the exception of
-- `std::unordered_map::at` for a missing key.
use data_agent_system.Prelude.{
  Text, Bool, true, false, List, [], ◌∷◌, Option, none, some, ◌&&◌, not, codes, text_eq, is_empty,
  map, if◌then◌else◌, ◌>>=◌,
}
use data_agent_system.Prelude.Map.{Map, find}
use data_agent_system.Log.Lines.{strtoull}
use data_agent_system.Intent.Log as IntentLog
use data_agent_system.Cache.ReadSet as ReadSet
use data_agent_system.Cache.WriteBuffer as WriteBuffer
use data_agent_system.Branch.Context.{Double, Casts, BranchContext, BranchStatus}
use data_agent_system.Branch.Context as Branch
use data_agent_system.Txn.Context.{AgentTxnContext, TxnStatus, running, committed, aborted}
use data_agent_system.Txn.Manager.{begin}
use data_agent_system.Runtime.Plan.{BranchPlan}
use data_agent_system.Runtime.Session.{TaskSession, TaskEvent}
use data_agent_system.Runtime.EventReader.{
  ParsedTaskEvent, ParsedTaskEventLogArtifact, parse_task_event_log_artifact,
}
use data_agent_system.Runtime.Decision.{
  TaskRecoveryAction, retry_from_scratch, task_event_type_from_name,
}
use data_agent_system.Runtime.RecoveryPlan.{TaskRecoveryPlan, build_task_recovery_plan}

pub record RecoveredTaskSession (D : Type 0) : Type 0 where
  pub recovery_plan : TaskRecoveryPlan D
  pub session : TaskSession D

unfoldable pub event_of_parsed : ParsedTaskEvent → TaskEvent
unfolding task_event_type_from_name
event_of_parsed e = record {
  sequence_number = e.sequence_number;
  type = task_event_type_from_name e.event_type;
  branch_id = e.branch_id;
  object_id = e.object_id;
  detail = e.detail;
  numeric_value = e.numeric_value;
}

unfoldable pub is_retry : TaskRecoveryAction → Bool
is_retry retry_from_scratch = true
is_retry _ = false

-- The status of the transaction, and its winner.
unfoldable pub recovered_status : Bool → TaskRecoveryAction → TxnStatus
unfolding is_retry
recovered_status is_committed action =
    if is_committed then committed else if is_retry action then aborted else running

unfoldable pub recovered_winner : Bool → TaskRecoveryAction → Text → Text
unfolding is_retry
recovered_winner is_committed action branch_id =
    if is_committed then branch_id else if is_retry action then branch_id else []

module _ {D : Type 0} (fp : Double D) (casts : Casts D) where
  unfoldable pub recovered_branch : Text → BranchPlan D → BranchContext D
  recovered_branch resume_branch_id plan = record {
    branch_id = plan.branch_id;
    status =
        if not (is_empty resume_branch_id) && text_eq plan.branch_id resume_branch_id
        then Branch.running
        else Branch.created;
    read_set = ReadSet.empty;
    write_buffer = WriteBuffer.empty;
    intent_log = IntentLog.empty;
    candidate_result = record { score = fp.zero; summary = [] };
    savepoints = [];
  }

  -- The session, with what `at` gives for the two keys.
  unfoldable pub session_of :
      TaskRecoveryPlan D → List ParsedTaskEvent → Text → Text → TaskSession D
  unfolding recovered_branch recovered_status recovered_winner event_of_parsed strtoull begin
  session_of recovery_plan events commit_attempts flag =
      let decision = recovery_plan.decision in
      let is_committed = text_eq flag (codes "1") in
      let txn : AgentTxnContext D = begin fp decision.txn_id decision.task_id in
      record {
        task = recovery_plan.task;
        plan = recovery_plan.plan;
        txn = record txn {
          status = recovered_status is_committed decision.action;
          branches =
              map (recovered_branch decision.resume_branch_id) recovery_plan.plan.branch_plans;
          winner_branch_id =
              recovered_winner is_committed decision.action decision.resume_branch_id;
        };
        commit_attempts = strtoull commit_attempts;
        is_committed = is_committed;
        events = map event_of_parsed events;
      }

  unfoldable pub recover_task_session_from_artifact :
      Text → ParsedTaskEventLogArtifact → Option (RecoveredTaskSession D)
  unfolding build_task_recovery_plan session_of
  recover_task_session_from_artifact path artifact = do
    commit_attempts ← find (codes "commit_attempts") artifact.metadata
    flag ← find (codes "committed") artifact.metadata
    let recovery_plan = build_task_recovery_plan fp casts path artifact
    some (record {
      recovery_plan = recovery_plan;
      session = session_of recovery_plan artifact.events commit_attempts flag;
    })

  unfoldable pub recover_task_sessions :
      Map Text → List Text → Option (List (RecoveredTaskSession D))
  unfolding recover_task_session_from_artifact parse_task_event_log_artifact
  recover_task_sessions files [] = some []
  recover_task_sessions files (path ∷ paths) = elim (parse_task_event_log_artifact files path) [
    | none ↦ recover_task_sessions files paths
    | some artifact ↦ recover_task_session_from_artifact path artifact >>= λ recovered.
        recover_task_sessions files paths >>= λ sessions. some (recovered ∷ sessions)
  ]
