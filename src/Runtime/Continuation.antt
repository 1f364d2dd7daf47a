-- ===== src/Runtime/Continuation.antt =====
-- runtime/task_continuation.h and runtime/task_continuation_registry.h. A callback and a handler are
-- functions on the execution and the world, the runtime that they are given closed over; `none` is
-- an exception. Neither is empty.
use data_agent_system.Prelude.{
  Text, Bool, not, true, false, List, [], ◌∷◌, Option, none, some, is_empty, if◌then◌else◌, ◌>>=◌,
}
use data_agent_system.Prelude.Map.{Map, find, insert}
use data_agent_system.Storage.Interface.{VersionedKvStore}
use data_agent_system.Branch.Context.{Double, Casts}
use data_agent_system.Fallback.Recovery.{World}
use data_agent_system.Runtime.Plan.{BranchPlan}
use data_agent_system.Runtime.Execution.{TaskRecoveryExecution}
use data_agent_system.Runtime.Operations.{FallbackCommitRuntimeConfig, stage_branch}
use data_agent_system.Runtime.Commit.{commit_task}
use data_agent_system.Runtime.Resume.{ExecutionOutcome, execute_recovery_execution, with_session}

pub record TaskContinuationSpec (D : Type 0) : Type 0 where
  pub preferred_branch_id : Text
  pub score : D
  pub summary : Text

abbrev pub TaskContinuationCallback : Type 0 → Type 0 → Type 0
TaskContinuationCallback D S =
    TaskRecoveryExecution D → Text → World S → Option (ExecutionOutcome D S)

abbrev pub TaskContinuationHandler : Type 0 → Type 0 → Type 0
TaskContinuationHandler D S = TaskRecoveryExecution D → World S → Option (ExecutionOutcome D S)

first_branch_id : {D : Type 0} → List (BranchPlan D) → Text
first_branch_id [] = []
first_branch_id (p ∷ plans) = p.branch_id

-- The branch to go on with: the preferred one, the target, or the first of the plan.
unfoldable pub chosen_branch :
    {D : Type 0} → TaskContinuationSpec D → TaskRecoveryExecution D → Text
unfolding first_branch_id
chosen_branch spec execution =
    if not (is_empty spec.preferred_branch_id)
    then spec.preferred_branch_id
    else if not (is_empty execution.target_branch_id)
    then execution.target_branch_id
    else first_branch_id execution.session.plan.branch_plans

failed : {D S : Type 0} → ExecutionOutcome D S → ExecutionOutcome D S
failed o = record o { done = false }

module _ {D S : Type 0} (fp : Double D) (casts : Casts D) (kv : VersionedKvStore S)
    (config : FallbackCommitRuntimeConfig) (spec : TaskContinuationSpec D) where
  -- The last two statements.
  unfoldable pub stage_and_commit : Text → ExecutionOutcome D S → Option (ExecutionOutcome D S)
  unfolding stage_branch commit_task with_session
  stage_and_commit branch_id o =
      commit_task fp kv config
        (stage_branch casts branch_id spec.score spec.summary o.execution.session) o.world
      >>= λ c. some (record {
        done = c.done;
        execution = with_session c.session o.execution;
        world = c.world;
      })

  unfoldable pub continue_executed :
      TaskContinuationCallback D S → ExecutionOutcome D S → Option (ExecutionOutcome D S)
  unfolding chosen_branch failed stage_and_commit
  continue_executed callback o =
      let branch_id = chosen_branch spec o.execution in
      let called = callback o.execution branch_id o.world >>= λ c.
      if c.done then stage_and_commit branch_id c else some c in
      if not o.done then some o else if is_empty branch_id then some (failed o) else called

  unfoldable pub continue_recovered_task :
      TaskContinuationCallback D S
      → TaskRecoveryExecution D
      → World S
      → Option (ExecutionOutcome D S)
  unfolding execute_recovery_execution continue_executed
  continue_recovered_task callback execution world =
      execute_recovery_execution fp casts kv config execution world >>= continue_executed callback

handler_name : {D : Type 0} → TaskRecoveryExecution D → Text
handler_name execution =
    if is_empty execution.session.task.workload_name
    then execution.recovery_plan.task.workload_name
    else execution.session.task.workload_name

abbrev pub TaskContinuationRegistry : Type 0 → Type 0 → Type 0
TaskContinuationRegistry D S = Map (TaskContinuationHandler D S)

module _ {D S : Type 0} where
  unfoldable pub register_handler :
      Text
      → TaskContinuationHandler D S
      → TaskContinuationRegistry D S
      → TaskContinuationRegistry D S × Bool
  register_handler workload_name handler handlers =
      if is_empty workload_name
      then (handlers, false)
      else (insert workload_name handler handlers, true)

  unfoldable pub find_handler :
      Text → TaskContinuationRegistry D S → Option (TaskContinuationHandler D S)
  find_handler workload_name handlers = find workload_name handlers

  -- `Continue`: a workload with no handler is a failure.
  unfoldable pub continue_task :
      TaskContinuationRegistry D S
      → TaskRecoveryExecution D
      → World S
      → Option (ExecutionOutcome D S)
  unfolding find_handler handler_name
  continue_task handlers execution world = elim (find_handler (handler_name execution) handlers) [
    | none ↦ some (record { done = false; execution = execution; world = world })
    | some handler ↦ handler execution world
  ]
