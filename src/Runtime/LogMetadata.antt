-- ===== src/Runtime/LogMetadata.antt =====
-- The metadata of a task event log: what stands in the session, and what the parser of
-- task_event_log_replay.h has of it.
use Prim.Native.String.{String}
use data_agent_system.Prelude.{
  ℕ, ◌+◌, ◌-◌, ◌*◌, ◌≡◌, ◌≢◌, refl, ap, ◌∙◌, Text, Bool, true, false, List, [], ◌∷◌, ◌++◌, some,
  All, arith, codes, map, length, if◌then◌else◌,
}
use data_agent_system.Prelude.Map.{Map, insert}
use data_agent_system.Intent.Number.{print_ℕ, parse_ℕ-print_ℕ, parse_ℕ, digits_value}
use data_agent_system.Log.Escape.{unescape, unescape-escape, unescape-unescaped}
use data_agent_system.Log.Lines.{flag}
use data_agent_system.Runtime.Task.{
  TaskContext, ObjectReference, TaskPhase, created, running, committed, aborted,
}
use data_agent_system.Runtime.Session.{TaskSession}
use data_agent_system.Runtime.EventWriter.{
  indexed, object_fields, metadata_entry_fields, task_context_fields, state_fields, session_fields,
  phase_number, task_event_log_text,
}
use data_agent_system.Runtime.EventReader.{ParsedTaskEventLogArtifact, parse_task_event_log}
use data_agent_system.Runtime.EventRoundTrip.{parsed, IsRecordable}
use data_agent_system.Runtime.LogRoundTrip.{logged, add_fields, parse_task_event_log-logged}

-- The metadata after the values `fields` have been set in their order.
abbrev pub set_all : List (Text × Text) → Map Text → Map Text
set_all [] metadata = metadata
set_all ((key, value) ∷ fields) metadata = set_all fields (insert key value metadata)

-- The keys and the values of a session, with its texts as they are.
abbrev pub object_values : String → ℕ → List ObjectReference → List (Text × Text)
object_values name i [] = []
object_values name i (o ∷ objects) =
    (indexed name i "_id", o.object_id)
    ∷ (indexed name i "_role", o.object_role)
    ∷ object_values name (i + 1) objects

abbrev pub entry_values : ℕ → Map Text → List (Text × Text)
entry_values i [] = []
entry_values i ((key, value) ∷ metadata) =
    (indexed "task_metadata_" i "_key", key)
    ∷ (indexed "task_metadata_" i "_value", value)
    ∷ entry_values (i + 1) metadata

abbrev pub task_values : TaskContext → List (Text × Text)
task_values task =
    ((codes "input_object_count", print_ℕ (length task.input_objects))
      ∷ object_values "input_object_" 0 task.input_objects)
    ++ (((codes "output_object_count", print_ℕ (length task.output_objects))
          ∷ object_values "output_object_" 0 task.output_objects)
        ++ ((codes "task_metadata_count", print_ℕ (length task.metadata))
            ∷ entry_values 0 task.metadata))

abbrev pub phase_text : TaskPhase → Text
phase_text created = codes "0"
phase_text running = codes "1"
phase_text committed = codes "2"
phase_text aborted = codes "3"

abbrev pub state_values : {D : Type 0} → TaskSession D → List (Text × Text)
state_values s =
    (codes "task_phase", phase_text s.task.phase)
    ∷ (codes "commit_attempts", print_ℕ s.commit_attempts)
    ∷ (codes "committed", if s.is_committed then codes "1" else codes "0")
    ∷ (codes "event_count", print_ℕ (length s.events))
    ∷ []

abbrev pub session_values : {D : Type 0} → TaskSession D → List (Text × Text)
session_values s =
    (codes "task_id", s.task.task_id)
    ∷ (codes "txn_id", s.txn.txn_id)
    ∷ (codes "workload_name", s.task.workload_name)
    ∷ (codes "planner_id", s.task.planner_id)
    ∷ (task_values s.task ++ state_values s)

abbrev pub session_artifact : {D : Type 0} → TaskSession D → ParsedTaskEventLogArtifact
session_artifact s = record {
  metadata = set_all (session_values s) [];
  events = map parsed s.events;
}

digits_ne_backslash : (n m : ℕ) (t : Text) → digits_value n t ≡ some m → All (λ c. c ≢ b'\\') t
unfolding digits_value
digits_ne_backslash n m [] h = tt
digits_ne_backslash n m (c ∷ t) h = ground (arith, digits_ne_backslash (n * 10 + (c - b'0')) m t)

parse_ℕ_ne_backslash : (t : Text) (v : ℕ) → parse_ℕ t ≡ some v → All (λ c. c ≢ b'\\') t
unfolding parse_ℕ
parse_ℕ_ne_backslash [] v h = tt
parse_ℕ_ne_backslash (c ∷ t) v h = digits_ne_backslash 0 v (c ∷ t) h

unescape-print_ℕ : (n : ℕ) → unescape (print_ℕ n) ≡ print_ℕ n
unescape-print_ℕ n =
    unescape-unescaped (print_ℕ n) (parse_ℕ_ne_backslash (print_ℕ n) n (parse_ℕ-print_ℕ n))

-- The field that the parser makes of a written one.
abbrev read_field : Text × Text → Text × Text
read_field (key, value) = (key, unescape value)

add_fields-set_all :
    (fields : List (Text × Text)) (metadata : Map Text)
    → add_fields fields metadata ≡ set_all (map read_field fields) metadata
unfolding add_fields
add_fields-set_all [] metadata = refl
add_fields-set_all ((key, value) ∷ fields) metadata =
    add_fields-set_all fields (insert key (unescape value) metadata)

map-append :
    (fields more : List (Text × Text))
    → map read_field (fields ++ more) ≡ map read_field fields ++ map read_field more
map-append [] more = refl
map-append (f ∷ fields) more = ap (◌∷◌ (read_field f)) (map-append fields more)

read_object_fields :
    (name : String) (i : ℕ) (objects : List ObjectReference)
    → map read_field (object_fields name i objects) ≡ object_values name i objects
unfolding object_fields
read_object_fields name i [] = refl
read_object_fields name i (o ∷ objects) =
    rw
      (
        unescape-escape o.object_id,
        unescape-escape o.object_role,
        read_object_fields name (i + 1) objects,
      )
      refl

read_entry_fields :
    (i : ℕ) (metadata : Map Text)
    → map read_field (metadata_entry_fields i metadata) ≡ entry_values i metadata
unfolding metadata_entry_fields
read_entry_fields i [] = refl
read_entry_fields i ((key, value) ∷ metadata) =
    rw (unescape-escape key, unescape-escape value, read_entry_fields (i + 1) metadata) refl

read_task_fields :
    (task : TaskContext) → map read_field (task_context_fields task) ≡ task_values task
unfolding task_context_fields
read_task_fields task =
    map-append
      ((codes "input_object_count", print_ℕ (length task.input_objects))
        ∷ object_fields "input_object_" 0 task.input_objects)
      _
    ∙ rw
        (
          unescape-print_ℕ (length task.input_objects),
          read_object_fields "input_object_" 0 task.input_objects,
          map-append
              ((codes "output_object_count", print_ℕ (length task.output_objects))
                ∷ object_fields "output_object_" 0 task.output_objects)
              ((codes "task_metadata_count", print_ℕ (length task.metadata))
                ∷ metadata_entry_fields 0 task.metadata),
        )
        (rw
          (
            unescape-print_ℕ (length task.output_objects),
            read_object_fields "output_object_" 0 task.output_objects,
            unescape-print_ℕ (length task.metadata),
            read_entry_fields 0 task.metadata,
          )
          refl)

read_phase : (phase : TaskPhase) → unescape (print_ℕ (phase_number phase)) ≡ phase_text phase
unfolding phase_number print_ℕ unescape
read_phase created = refl
read_phase running = refl
read_phase committed = refl
read_phase aborted = refl

read_flag : (b : Bool) → unescape (flag b) ≡ (if b then codes "1" else codes "0")
unfolding flag unescape
read_flag true = refl
read_flag false = refl

module _ {D : Type 0} (s : TaskSession D) where
  read_state_fields : map read_field (state_fields s) ≡ state_values s
  unfolding state_fields
  read_state_fields =
      rw
        (
          read_phase s.task.phase,
          unescape-print_ℕ s.commit_attempts,
          read_flag s.is_committed,
          unescape-print_ℕ (length s.events),
        )
        refl

  read_task_and_state :
      map read_field (task_context_fields s.task ++ state_fields s)
      ≡ task_values s.task ++ state_values s
  read_task_and_state =
      map-append (task_context_fields s.task) (state_fields s)
      ∙ ap (λ fields. fields ++ map read_field (state_fields s)) (read_task_fields s.task)
      ∙ ap (λ fields. task_values s.task ++ fields) read_state_fields

  read_session_fields : map read_field (session_fields s) ≡ session_values s
  unfolding session_fields
  read_session_fields =
      rw
        (
          unescape-escape s.task.task_id,
          unescape-escape s.txn.txn_id,
          unescape-escape s.task.workload_name,
          unescape-escape s.task.planner_id,
        )
        (ap
          (λ (fields : List (Text × Text)).
            (codes "task_id", s.task.task_id)
            ∷ (codes "txn_id", s.txn.txn_id)
            ∷ (codes "workload_name", s.task.workload_name)
            ∷ (codes "planner_id", s.task.planner_id)
            ∷ fields)
          read_task_and_state)

  pub logged-session_artifact : logged s ≡ session_artifact s
  logged-session_artifact =
      ap (λ (m : Map Text). record { metadata = m; events = map parsed s.events })
        (add_fields-set_all (session_fields s) []
          ∙ ap (λ (fields : List (Text × Text)). set_all fields []) read_session_fields)

-- The log of a session is read back, whatever bytes its texts hold, if the numbers of the events are
-- 64-bit numbers: the events in their order, and as metadata the identifiers, the objects with their
-- roles, the metadata of the task, the phase, the count of attempts, the flag and the counts, each as
-- it stands in the session under the key for it.
pub parse_task_event_log-task_event_log_text :
    {D : Type 0} (s : TaskSession D)
    → All IsRecordable s.events
    → parse_task_event_log (task_event_log_text s) ≡ some (session_artifact s)
parse_task_event_log-task_event_log_text s h =
    parse_task_event_log-logged s h ∙ ap some (logged-session_artifact s)
