-- ===== src/Runtime/RecoveryPlan.antt =====
-- runtime/task_recovery.h: the task and the plan that a task event log gives back.
use Prim.Native.String.{String}
use data_agent_system.Prelude.{
  ℕ, zero, suc, ◌+◌, Text, Bool, true, false, List, [], ◌∷◌, ◌++◌, ◌&&◌, not, codes, text_eq,
  is_empty, if◌then◌else◌,
}
use data_agent_system.Prelude.Map.{Map}
use data_agent_system.Log.Lines.{strtoull}
use data_agent_system.Branch.Context.{Double, Casts}
use data_agent_system.Runtime.Task.{
  TaskContext, created, add_input_object, add_output_object, set_metadata,
}
use data_agent_system.Runtime.Plan.{ExecutionPlan, highest_score, add_branch_plan}
use data_agent_system.Runtime.EventWriter.{indexed}
use data_agent_system.Runtime.EventReader.{
  ParsedTaskEvent, ParsedTaskEventLogArtifact, metadata_value, for_parsed,
}
use data_agent_system.Runtime.Decision.{
  TaskRecoveryDecision, recover_task_session_decision, task_recovery_action_name,
  task_phase_from_persisted_value,
}

pub record TaskRecoveryPlan (D : Type 0) : Type 0 where
  pub decision : TaskRecoveryDecision
  pub task : TaskContext
  pub plan : ExecutionPlan D

unfoldable pub parse_task_metadata_size : Text → ℕ
unfolding strtoull
parse_task_metadata_size value = strtoull value

-- One of the three loops of `RestoreTaskContextFromArtifactMetadata`, over the indices from `i` on,
-- `remaining` of them: the entries whose first field is not empty are added.
unfoldable pub restore_indexed :
    ParsedTaskEventLogArtifact
    → String
    → String
    → String
    → (Text → Text → TaskContext → TaskContext)
    → ℕ
    → ℕ
    → TaskContext
    → TaskContext
restore_indexed artifact name first second add zero i task = task
restore_indexed artifact name first second add (suc remaining) i task =
    let field = metadata_value artifact (indexed name i first) in
    let other = metadata_value artifact (indexed name i second) in
    restore_indexed artifact name first second add remaining (i + 1)
      (if is_empty field then task else add field other task)

-- `RestoreTaskContextFromArtifactMetadata`
unfoldable pub restore_task_context : ParsedTaskEventLogArtifact → TaskContext → TaskContext
unfolding restore_indexed parse_task_metadata_size metadata_value
restore_task_context artifact task =
    let size = λ (name : String). parse_task_metadata_size (metadata_value artifact (codes name)) in
    let inputs =
      restore_indexed artifact "input_object_" "_id" "_role" add_input_object
        (size "input_object_count") 0 (record task { input_objects = [] }) in
    let outputs =
      restore_indexed artifact "output_object_" "_id" "_role" add_output_object
        (size "output_object_count") 0 (record inputs { output_objects = [] }) in
    restore_indexed artifact "task_metadata_" "_key" "_value" set_metadata
      (size "task_metadata_count") 0 (record outputs { metadata = [] })

text_or : String → Text → Text
text_or otherwise text = if is_empty text then codes otherwise else text

-- The task before the events are read.
unfoldable pub plan_task : Text → ParsedTaskEventLogArtifact → TaskRecoveryDecision → TaskContext
unfolding restore_task_context text_or task_phase_from_persisted_value task_recovery_action_name
plan_task path artifact decision =
    let restored = restore_task_context artifact (record {
      task_id = metadata_value artifact (codes "task_id");
      objective = codes "recovered task session";
      workload_name =
          text_or "runtime.recovered_from_task_log"
            (metadata_value artifact (codes "workload_name"));
      planner_id = text_or "task_recovery_manager" (metadata_value artifact (codes "planner_id"));
      phase = created;
      input_objects = [];
      output_objects = [];
      metadata = [];
    }) in
    let phased : TaskContext = record restored {
      phase = task_phase_from_persisted_value (metadata_value artifact (codes "task_phase"));
    } in
    set_metadata (codes "resume_savepoint_id") decision.resume_savepoint_id (
      set_metadata (codes "resume_branch_id") decision.resume_branch_id (
        set_metadata (codes "recovery_reason") decision.reason (
          set_metadata (codes "recovery_action") (task_recovery_action_name decision.action)
            (set_metadata (codes "source_log") path phased))))

has_no_item : {A : Type 0} → List A → Bool
has_no_item [] = true
has_no_item (x ∷ xs) = false

-- The four tests of the loop over the events, as far as they change the task.
unfoldable pub task_after_event : ParsedTaskEvent → TaskContext → TaskContext
unfolding has_no_item
task_after_event e task =
    let submitted : TaskContext =
      if text_eq e.event_type (codes "SUBMIT_TASK") && not (is_empty e.detail)
      then record task { objective = e.detail }
      else task in
    let has_read : TaskContext =
      if text_eq e.event_type (codes "READ") && has_no_item submitted.input_objects
      then add_input_object e.object_id (codes "recovered_input") submitted
      else submitted in
    if text_eq e.event_type (codes "WRITE") && has_no_item has_read.output_objects
    then add_output_object e.object_id (codes "recovered_output") has_read
    else has_read

module _ {D : Type 0} (fp : Double D) (casts : Casts D) where
  unfoldable pub plan_after_event : ParsedTaskEvent → ExecutionPlan D → ExecutionPlan D
  plan_after_event e plan =
      if text_eq e.event_type (codes "CREATE_BRANCH")
      then add_branch_plan e.branch_id e.detail (codes "recovered branch")
          (casts.of_int e.numeric_value) plan
      else plan

  unfoldable pub replay_events :
      List ParsedTaskEvent → TaskContext × ExecutionPlan D → TaskContext × ExecutionPlan D
  unfolding task_after_event plan_after_event
  replay_events [] state = state
  replay_events (e ∷ events) (task, plan) =
      replay_events events (task_after_event e task, plan_after_event e plan)

  -- The plan of a log that created no branch.
  unfoldable pub with_fallback_branch : Text → ExecutionPlan D → ExecutionPlan D
  unfolding has_no_item
  with_fallback_branch branch_id plan =
      if has_no_item plan.branch_plans && not (is_empty branch_id)
      then add_branch_plan branch_id (branch_id ++ codes "_candidate")
          (codes "recovered fallback branch") fp.zero plan
      else plan

  unfoldable pub build_task_recovery_plan : Text → ParsedTaskEventLogArtifact → TaskRecoveryPlan D
  unfolding recover_task_session_decision plan_task replay_events with_fallback_branch
  build_task_recovery_plan path artifact =
      let decision = recover_task_session_decision path artifact in
      let empty_plan : ExecutionPlan D = record {
        winner_selection_policy = highest_score;
        branch_plans = [];
      } in
      let (task, plan) =
        replay_events artifact.events (plan_task path artifact decision, empty_plan) in
      record {
        decision = decision;
        task = task;
        plan = with_fallback_branch decision.resume_branch_id plan;
      }

  unfoldable pub build_task_recovery_plans : Map Text → List Text → List (TaskRecoveryPlan D)
  unfolding for_parsed build_task_recovery_plan
  build_task_recovery_plans = for_parsed build_task_recovery_plan
