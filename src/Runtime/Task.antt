-- ===== src/Runtime/Task.antt =====
-- runtime/task_context.h. An exception is its message; `none` is a normal return.
use data_agent_system.Prelude.{
  Text, List, [], ◌∷◌, ◌++◌, Option, none, some, is_empty, codes, if◌then◌else◌,
}
use data_agent_system.Prelude.Map.{Map, insert}

pub data TaskPhase : Type 0 where
  created running committed aborted : TaskPhase

pub record ObjectReference : Type 0 where
  pub object_id : Text
  pub object_role : Text

pub record TaskContext : Type 0 where
  pub task_id : Text
  pub objective : Text
  pub workload_name : Text
  pub planner_id : Text
  pub phase : TaskPhase
  pub input_objects : List ObjectReference
  pub output_objects : List ObjectReference
  pub metadata : Map Text

unfoldable pub add_input_object : Text → Text → TaskContext → TaskContext
add_input_object object_id object_role task = record task {
  input_objects =
      task.input_objects ++ record { object_id = object_id; object_role = object_role } ∷ [];
}

unfoldable pub add_output_object : Text → Text → TaskContext → TaskContext
add_output_object object_id object_role task = record task {
  output_objects =
      task.output_objects ++ record { object_id = object_id; object_role = object_role } ∷ [];
}

unfoldable pub set_metadata : Text → Text → TaskContext → TaskContext
set_metadata key value task = record task { metadata = insert key value task.metadata }

unfoldable pub validate_task : TaskContext → Option Text
validate_task task =
    if is_empty task.task_id
    then some (codes "task context requires a non-empty task_id")
    else if is_empty task.objective
    then some (codes "task context requires a non-empty objective")
    else none
