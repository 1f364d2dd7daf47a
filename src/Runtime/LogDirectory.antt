-- ===== src/Runtime/LogDirectory.antt =====
-- runtime/task_recovery_manager.h: the task event logs of a directory.
use data_agent_system.Prelude.{Text, List, Option, codes}
use data_agent_system.Prelude.Map.{Map}
use data_agent_system.Branch.Context.{Double, Casts}
use data_agent_system.Fallback.Directory.{list_paths_with_suffix}
use data_agent_system.Runtime.Decision.{TaskRecoveryDecision, recover_task_session_decisions}
use data_agent_system.Runtime.RecoveryPlan.{TaskRecoveryPlan, build_task_recovery_plans}
use data_agent_system.Runtime.RecoveredSession.{RecoveredTaskSession, recover_task_sessions}

unfoldable pub list_task_logs : Text → Map Text → List Text
unfolding list_paths_with_suffix
list_task_logs task_log_dir = list_paths_with_suffix task_log_dir (codes ".task.log")

unfoldable pub recover_from_directory : Text → Map Text → List TaskRecoveryDecision
unfolding list_task_logs recover_task_session_decisions
recover_from_directory dir files = recover_task_session_decisions files (list_task_logs dir files)

module _ {D : Type 0} (fp : Double D) (casts : Casts D) where
  unfoldable pub build_plans_from_directory : Text → Map Text → List (TaskRecoveryPlan D)
  unfolding list_task_logs build_task_recovery_plans
  build_plans_from_directory dir files =
      build_task_recovery_plans fp casts files (list_task_logs dir files)

  unfoldable pub recover_sessions_from_directory :
      Text → Map Text → Option (List (RecoveredTaskSession D))
  unfolding list_task_logs recover_task_sessions
  recover_sessions_from_directory dir files =
      recover_task_sessions fp casts files (list_task_logs dir files)
