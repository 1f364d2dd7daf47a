-- ===== src/Runtime/Resume.antt =====
-- `ExecuteRecoveryExecution` of runtime/task_runtime.h.
use data_agent_system.Prelude.{
  Text, Bool, true, false, Option, none, some, codes, next_version, if◌then◌else◌, ◌>>=◌,
}
use data_agent_system.Storage.Interface.{VersionedKvStore}
use data_agent_system.Branch.Context.{BranchContext, Double, Casts}
use data_agent_system.Branch.Context as Branch
use data_agent_system.Branch.Rollback as Rollback
use data_agent_system.Fallback.Recovery.{World}
use data_agent_system.Txn.Context.{AgentTxnContext}
use data_agent_system.Runtime.Task.{TaskContext, set_metadata}
use data_agent_system.Runtime.Task as Task
use data_agent_system.Runtime.Session.{TaskSession}
use data_agent_system.Runtime.Execution.{
  TaskRecoveryExecution, TaskRecoveryCommandType, noop, submit_fresh_task, resume_branch,
  resume_from_savepoint, revalidate_commit, set_task_metadata,
}
use data_agent_system.Runtime.Operations.{
  threw, returned, FallbackCommitRuntimeConfig, on_txn, submit_task,
}
use data_agent_system.Runtime.Commit.{commit_task}

-- The execution and the world after a call, with its result.
pub record ExecutionOutcome (D S : Type 0) : Type 0 where
  pub done : Bool
  pub execution : TaskRecoveryExecution D
  pub world : World S

abbrev pub status_key : Text
status_key = codes "recovery_execution_status"

module _ {D : Type 0} where
  -- A change of the session of an execution.
  unfoldable pub with_session : TaskSession D → TaskRecoveryExecution D → TaskRecoveryExecution D
  with_session s execution = record execution { session = s }

  unfoldable pub set_running : BranchContext D → BranchContext D
  set_running b = record b { status = Branch.running }

  -- The branch is found, and the session goes on from it.
  unfoldable pub resume_session : Text → AgentTxnContext D → TaskSession D → TaskSession D
  unfolding set_task_metadata
  resume_session status txn s =
      set_task_metadata status_key status
        (record s { txn = txn; task = record s.task { phase = Task.running } })

  -- The change of `kResumeBranch` to the branch, with `true`.
  unfoldable pub resume_change : BranchContext D → BranchContext D × Bool
  unfolding set_running
  resume_change b = (set_running b, true)

  -- The change of `kResumeFromSavepoint`: the status is set where the rollback succeeds.
  unfoldable pub rollback_change : Text → BranchContext D → BranchContext D × Bool
  unfolding set_running
  rollback_change savepoint_id b =
      let (b', ok) = Rollback.rollback_to_savepoint savepoint_id b in
      if ok then (set_running b', true) else (b', false)

  -- A change that fails leaves the rest of the session.
  unfoldable pub resume_with :
      {S : Type 0}
      → Text
      → (BranchContext D → BranchContext D × Bool)
      → TaskRecoveryExecution D
      → World S
      → ExecutionOutcome D S
  unfolding resume_session with_session on_txn
  resume_with status change execution world =
      let s = execution.session in
      let (txn, ok) = on_txn execution.target_branch_id change false s.txn in
      record {
        done = ok;
        execution = if ok then with_session (resume_session status txn s) execution else execution;
        world = world;
      }

module _ {D S : Type 0} (fp : Double D) (casts : Casts D) (kv : VersionedKvStore S)
    (config : FallbackCommitRuntimeConfig) where
  -- `kSubmitFreshTask`: the count of the retries is one more than that of the recovered session.
  unfoldable pub submit_fresh : TaskRecoveryExecution D → World S → Option (ExecutionOutcome D S)
  unfolding submit_task with_session
  submit_fresh execution world =
      let retries = next_version execution.session.txn.metrics.retry_count in
      let task =
        set_metadata status_key (codes "fresh_submit")
          (record execution.recovery_plan.task { phase = Task.created }) in
      elim (submit_task fp casts kv config task execution.recovery_plan.plan) [
        | threw message ↦ none
        | returned s ↦ some (record {
          done = true;
          execution =
              with_session
                (record s {
                  txn = record s.txn { metrics = record s.txn.metrics { retry_count = retries } };
                })
                execution;
          world = world;
        })
      ]

  -- The `switch`, by the type of the command; `none` is an exception.
  unfoldable pub execute_command :
      TaskRecoveryCommandType → TaskRecoveryExecution D → World S → Option (ExecutionOutcome D S)
  unfolding submit_fresh resume_with resume_change rollback_change commit_task with_session
      set_task_metadata
  execute_command command execution world = elim command [
    | noop ↦ some (record {
      done = true;
      execution =
          with_session (set_task_metadata status_key (codes "noop") execution.session) execution;
      world = world;
    })
    | submit_fresh_task ↦ submit_fresh execution world
    | resume_branch ↦ some (resume_with (codes "branch_resumed") resume_change execution world)
    | resume_from_savepoint ↦ some (
        resume_with (codes "savepoint_resumed") (rollback_change execution.target_savepoint_id)
          execution world)
    | revalidate_commit ↦
        commit_task fp kv config
          (set_task_metadata status_key (codes "revalidate_commit") execution.session) world
        >>= λ o. some (record {
          done = o.done;
          execution = with_session o.session execution;
          world = o.world;
        })
  ]

  unfoldable pub execute_recovery_execution :
      TaskRecoveryExecution D → World S → Option (ExecutionOutcome D S)
  unfolding execute_command
  execute_recovery_execution execution world =
      execute_command execution.command_type execution world
