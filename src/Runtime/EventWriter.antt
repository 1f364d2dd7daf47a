-- ===== src/Runtime/EventWriter.antt =====
-- runtime/task_event_log_io.h: the text of a task event log and its file.
use data_agent_system.Prelude.{
  ℕ, ◌+◌, Text, Bool, false, List, [], ◌∷◌, ◌++◌, length, codes, map, if◌then◌else◌,
}
use Prim.Native.String.{String}
use data_agent_system.Prelude.Map.{Map}
use data_agent_system.Intent.Number.{print_ℕ, print_ℤ}
use data_agent_system.Log.Escape.{escape, tab}
use data_agent_system.Log.Lines.{flag, unlines, key_value}
use data_agent_system.Fallback.Disk.{Disk, open_truncated, write_flushed}
use data_agent_system.Runtime.Task.{
  TaskContext, TaskPhase, ObjectReference, created, running, committed, aborted,
}
use data_agent_system.Runtime.Session.{
  TaskSession, TaskEvent, TaskEventType, submit_task, create_branch, read, write, savepoint,
  rollback_to_savepoint, stage_branch, commit_attempt, commit_task, abort_task,
}

abbrev pub task_event_log_header : Text
task_event_log_header = codes "DAS_TASK_EVENT_LOG_V1"

abbrev pub events_mark : Text
events_mark = codes "[events]"

-- The same text as that of the commit logs.
abbrev pub escape_task_event_log_text : Text → Text
escape_task_event_log_text = escape

unfoldable pub task_event_type_name : TaskEventType → Text
task_event_type_name submit_task = codes "SUBMIT_TASK"
task_event_type_name create_branch = codes "CREATE_BRANCH"
task_event_type_name read = codes "READ"
task_event_type_name write = codes "WRITE"
task_event_type_name savepoint = codes "SAVEPOINT"
task_event_type_name rollback_to_savepoint = codes "ROLLBACK_TO_SAVEPOINT"
task_event_type_name stage_branch = codes "STAGE_BRANCH"
task_event_type_name commit_attempt = codes "COMMIT_ATTEMPT"
task_event_type_name commit_task = codes "COMMIT_TASK"
task_event_type_name abort_task = codes "ABORT_TASK"

-- `static_cast<int>(phase)`
unfoldable pub phase_number : TaskPhase → ℕ
phase_number created = 0
phase_number running = 1
phase_number committed = 2
phase_number aborted = 3

-- `name`, the index, `part`
abbrev pub indexed : String → ℕ → String → Text
indexed name i part = codes name ++ print_ℕ i ++ codes part

-- The keys and the texts of a list of objects from the index `i` on.
unfoldable pub object_fields : String → ℕ → List ObjectReference → List (Text × Text)
object_fields name i [] = []
object_fields name i (object ∷ objects) =
    (indexed name i "_id", escape_task_event_log_text object.object_id)
    ∷ (indexed name i "_role", escape_task_event_log_text object.object_role)
    ∷ object_fields name (i + 1) objects

unfoldable pub metadata_entry_fields : ℕ → Map Text → List (Text × Text)
metadata_entry_fields i [] = []
metadata_entry_fields i ((key, value) ∷ metadata) =
    (indexed "task_metadata_" i "_key", escape_task_event_log_text key)
    ∷ (indexed "task_metadata_" i "_value", escape_task_event_log_text value)
    ∷ metadata_entry_fields (i + 1) metadata

-- `WriteTaskContextMetadataLines`
unfoldable pub task_context_fields : TaskContext → List (Text × Text)
unfolding object_fields metadata_entry_fields
task_context_fields task =
    ((codes "input_object_count", print_ℕ (length task.input_objects))
      ∷ object_fields "input_object_" 0 task.input_objects)
    ++ (((codes "output_object_count", print_ℕ (length task.output_objects))
          ∷ object_fields "output_object_" 0 task.output_objects)
        ++ ((codes "task_metadata_count", print_ℕ (length task.metadata))
            ∷ metadata_entry_fields 0 task.metadata))

-- An event without its newline.
unfoldable pub event_text : TaskEvent → Text
unfolding task_event_type_name
event_text e =
    print_ℕ e.sequence_number
    ++ tab
      ∷ (task_event_type_name e.type
          ++ tab
            ∷ (escape_task_event_log_text e.branch_id
                ++ tab
                  ∷ (escape_task_event_log_text e.object_id
                      ++ tab
                        ∷ (print_ℤ e.numeric_value ++ tab ∷ escape_task_event_log_text e.detail))))

module _ {D : Type 0} where
  -- What follows the lines of the task.
  unfoldable pub state_fields : TaskSession D → List (Text × Text)
  unfolding phase_number
  state_fields s =
      (codes "task_phase", print_ℕ (phase_number s.task.phase))
      ∷ (codes "commit_attempts", print_ℕ s.commit_attempts)
      ∷ (codes "committed", flag s.is_committed)
      ∷ (codes "event_count", print_ℕ (length s.events))
      ∷ []

  unfoldable pub session_fields : TaskSession D → List (Text × Text)
  unfolding task_context_fields state_fields
  session_fields s =
      (codes "task_id", escape_task_event_log_text s.task.task_id)
      ∷ (codes "txn_id", escape_task_event_log_text s.txn.txn_id)
      ∷ (codes "workload_name", escape_task_event_log_text s.task.workload_name)
      ∷ (codes "planner_id", escape_task_event_log_text s.task.planner_id)
      ∷ (task_context_fields s.task ++ state_fields s)

  -- The lines that `WriteTaskEventLogArtifact` sends to the stream.
  unfoldable pub task_event_log_lines : TaskSession D → List Text
  unfolding session_fields event_text
  task_event_log_lines s =
      task_event_log_header
      ∷ (map key_value (session_fields s) ++ events_mark ∷ map event_text s.events)

  unfoldable pub task_event_log_text : TaskSession D → Text
  unfolding task_event_log_lines
  task_event_log_text s = unlines (task_event_log_lines s)

  -- `WriteTaskEventLogArtifact`
  unfoldable pub write_task_event_log_artifact : TaskSession D → Text → Disk → Disk × Bool
  unfolding task_event_log_text
  write_task_event_log_artifact s path d =
      let (d₁, is_open) = open_truncated path d in
      let written = write_flushed path (task_event_log_text s) d₁ in
      if is_open then written else (d₁, false)
