-- ===== src/Runtime/Execution.antt =====
-- runtime/task_recovery_execution.h
use data_agent_system.Prelude.{Text, List, codes, map}
use data_agent_system.Runtime.Task.{set_metadata}
use data_agent_system.Runtime.Session.{TaskSession}
use data_agent_system.Runtime.Decision as Decision
use data_agent_system.Runtime.Decision.{TaskRecoveryAction}
use data_agent_system.Runtime.RecoveryPlan.{TaskRecoveryPlan}
use data_agent_system.Runtime.RecoveredSession.{RecoveredTaskSession}

pub data TaskRecoveryCommandType : Type 0 where
  noop submit_fresh_task resume_branch resume_from_savepoint : TaskRecoveryCommandType
  revalidate_commit : TaskRecoveryCommandType

pub record TaskRecoveryExecution (D : Type 0) : Type 0 where
  pub recovery_plan : TaskRecoveryPlan D
  pub session : TaskSession D
  pub command_type : TaskRecoveryCommandType
  pub target_branch_id : Text
  pub target_savepoint_id : Text
  pub summary : Text

unfoldable pub task_recovery_command_type_name : TaskRecoveryCommandType → Text
task_recovery_command_type_name noop = codes "NOOP"
task_recovery_command_type_name submit_fresh_task = codes "SUBMIT_FRESH_TASK"
task_recovery_command_type_name resume_branch = codes "RESUME_BRANCH"
task_recovery_command_type_name resume_from_savepoint = codes "RESUME_FROM_SAVEPOINT"
task_recovery_command_type_name revalidate_commit = codes "REVALIDATE_COMMIT"

-- The `switch` of `BuildTaskRecoveryExecution`.
unfoldable pub command_of : TaskRecoveryAction → TaskRecoveryCommandType
command_of Decision.skip_committed = noop
command_of Decision.retry_from_scratch = submit_fresh_task
command_of Decision.resume_branch = resume_branch
command_of Decision.resume_from_savepoint = resume_from_savepoint
command_of Decision.revalidate_commit = revalidate_commit

unfoldable pub summary_of : TaskRecoveryAction → Text
summary_of Decision.skip_committed = codes "task already committed; no recovery work required"
summary_of Decision.retry_from_scratch = codes "restart task from a fresh submission"
summary_of Decision.resume_branch = codes "resume execution from the latest branch state"
summary_of Decision.resume_from_savepoint =
    codes "resume execution from the latest recorded savepoint"
summary_of Decision.revalidate_commit = codes "re-run validation and conditional commit"

module _ {D : Type 0} where
  unfoldable pub set_task_metadata : Text → Text → TaskSession D → TaskSession D
  set_task_metadata key value s = record s { task = set_metadata key value s.task }

  unfoldable pub build_task_recovery_execution : RecoveredTaskSession D → TaskRecoveryExecution D
  unfolding command_of summary_of set_task_metadata task_recovery_command_type_name
  build_task_recovery_execution recovered =
      let decision = recovered.recovery_plan.decision in
      let command_type = command_of decision.action in
      let summary = summary_of decision.action in
      record {
        recovery_plan = recovered.recovery_plan;
        session = set_task_metadata (codes "recovery_summary") summary (
            set_task_metadata (codes "recovery_command")
              (task_recovery_command_type_name command_type) recovered.session);
        command_type = command_type;
        target_branch_id = decision.resume_branch_id;
        target_savepoint_id = decision.resume_savepoint_id;
        summary = summary;
      }

  unfoldable pub build_task_recovery_executions :
      List (RecoveredTaskSession D) → List (TaskRecoveryExecution D)
  unfolding build_task_recovery_execution
  build_task_recovery_executions = map build_task_recovery_execution
