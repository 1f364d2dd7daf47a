-- ===== src/Runtime/DecisionLaws.antt =====
-- What the log of a session says of its flag, its phase and its last event.
use data_agent_system.Prelude.{
  ◌≡◌, refl, ap, ◌∙◌, Text, Bool, true, false, List, [], ◌∷◌, ◌++◌, Option, none, some, codes,
  text_eq, map,
}
use data_agent_system.Prelude.Map.{Map, find, insert, find-insert}
use data_agent_system.Intent.Number.{print_ℕ}
use data_agent_system.Log.Escape.{escape, unescape}
use data_agent_system.Log.Lines.{flag}
use data_agent_system.Runtime.Task.{TaskPhase, created, running, committed, aborted}
use data_agent_system.Runtime.Session.{
  TaskSession, TaskEvent, TaskEventType, submit_task, create_branch, read, write, savepoint,
  rollback_to_savepoint, stage_branch, commit_attempt, commit_task, abort_task,
}
use data_agent_system.Runtime.EventWriter.{
  session_fields, state_fields, task_context_fields, phase_number, task_event_type_name,
}
use data_agent_system.Runtime.EventReader.{ParsedTaskEvent, metadata_value, last_event}
use data_agent_system.Runtime.Decision.{ends_with_type}
use data_agent_system.Runtime.EventRoundTrip.{parsed}
use data_agent_system.Runtime.LogRoundTrip.{logged, add_fields}

add_fields-append :
    (fields more : List (Text × Text)) (metadata : Map Text)
    → add_fields (fields ++ more) metadata ≡ add_fields more (add_fields fields metadata)
unfolding add_fields
add_fields-append [] more metadata = refl
add_fields-append ((key, value) ∷ fields) more metadata =
    add_fields-append fields more (insert key (unescape value) metadata)

-- The two phases that the decision asks for.
abbrev pub is_committed_phase : TaskPhase → Bool
is_committed_phase committed = true
is_committed_phase _ = false

abbrev pub is_aborted_phase : TaskPhase → Bool
is_aborted_phase aborted = true
is_aborted_phase _ = false

phase_is :
    (phase : TaskPhase)
    → (text_eq (unescape (print_ℕ (phase_number phase))) (codes "2") ≡ is_committed_phase phase)
      × (text_eq (unescape (print_ℕ (phase_number phase))) (codes "3") ≡ is_aborted_phase phase)
unfolding phase_number print_ℕ unescape text_eq
phase_is created = (refl, refl)
phase_is running = (refl, refl)
phase_is committed = (refl, refl)
phase_is aborted = (refl, refl)

flag_is : (b : Bool) → text_eq (unescape (flag b)) (codes "1") ≡ b
unfolding flag unescape text_eq
flag_is true = refl
flag_is false = refl

module _ {D : Type 0} (s : TaskSession D) where
  -- The state comes last and its keys come once, so that the metadata hold it.
  state_fields-found :
      (m : Map Text)
      → (find (codes "committed") (add_fields (state_fields s) m)
          ≡ some (unescape (flag s.is_committed)))
        × (find (codes "task_phase") (add_fields (state_fields s) m)
            ≡ some (unescape (print_ℕ (phase_number s.task.phase))))
        × (find (codes "commit_attempts") (add_fields (state_fields s) m)
            ≡ some (unescape (print_ℕ s.commit_attempts)))
  unfolding state_fields add_fields text_eq
  state_fields-found m = (simp find-insert, simp find-insert, simp find-insert)

  context : Map Text
  context = add_fields (task_context_fields s.task) (
      insert (codes "planner_id") (unescape (escape s.task.planner_id)) (
        insert (codes "workload_name") (unescape (escape s.task.workload_name)) (
          insert (codes "txn_id") (unescape (escape s.txn.txn_id))
            (insert (codes "task_id") (unescape (escape s.task.task_id)) []))))

  logged-state_fields : (logged s).metadata ≡ add_fields (state_fields s) context
  unfolding session_fields add_fields context
  logged-state_fields = add_fields-append (task_context_fields s.task) (state_fields s) _

  pub logged-found :
      (find (codes "committed") (logged s).metadata ≡ some (unescape (flag s.is_committed)))
      × (find (codes "task_phase") (logged s).metadata
          ≡ some (unescape (print_ℕ (phase_number s.task.phase))))
      × (find (codes "commit_attempts") (logged s).metadata
          ≡ some (unescape (print_ℕ s.commit_attempts)))
  logged-found =
      let f = state_fields-found context in
      (
        ap (find (codes "committed")) logged-state_fields ∙ f.0,
        ap (find (codes "task_phase")) logged-state_fields ∙ f.1,
        ap (find (codes "commit_attempts")) logged-state_fields ∙ f.2,
      )

  pub logged-is_committed :
      text_eq (metadata_value (logged s) (codes "committed")) (codes "1") ≡ s.is_committed
  unfolding metadata_value
  logged-is_committed = rw (logged-found.0, metadata_value) (flag_is s.is_committed)

  pub logged-phase :
      (text_eq (metadata_value (logged s) (codes "task_phase")) (codes "2")
        ≡ is_committed_phase s.task.phase)
      × (text_eq (metadata_value (logged s) (codes "task_phase")) (codes "3")
          ≡ is_aborted_phase s.task.phase)
  unfolding metadata_value
  logged-phase = rw (logged-found.1, metadata_value) (phase_is s.task.phase)

-- The type of the last event.
abbrev pub last_type : List TaskEvent → Option TaskEventType
last_type [] = none
last_type (e ∷ []) = some e.type
last_type (e ∷ f ∷ events) = last_type (f ∷ events)

abbrev pub is_commit_task : Option TaskEventType → Bool
is_commit_task (some commit_task) = true
is_commit_task _ = false

abbrev pub is_abort_task : Option TaskEventType → Bool
is_abort_task (some abort_task) = true
is_abort_task _ = false

abbrev pub is_commit_attempt : Option TaskEventType → Bool
is_commit_attempt (some commit_attempt) = true
is_commit_attempt _ = false

unfoldable pub EndsAs : Option ParsedTaskEvent → Option TaskEventType → Type 0
EndsAs o type =
    (ends_with_type (codes "COMMIT_TASK") o ≡ is_commit_task type)
    × (ends_with_type (codes "ABORT_TASK") o ≡ is_abort_task type)
    × (ends_with_type (codes "COMMIT_ATTEMPT") o ≡ is_commit_attempt type)

type_name_is :
    (e : TaskEvent) (type : TaskEventType) → e.type ≡ type → EndsAs (some (parsed e)) (some type)
unfolding EndsAs ends_with_type task_event_type_name text_eq
type_name_is e submit_task q = rw q (refl, refl, refl)
type_name_is e create_branch q = rw q (refl, refl, refl)
type_name_is e read q = rw q (refl, refl, refl)
type_name_is e write q = rw q (refl, refl, refl)
type_name_is e savepoint q = rw q (refl, refl, refl)
type_name_is e rollback_to_savepoint q = rw q (refl, refl, refl)
type_name_is e stage_branch q = rw q (refl, refl, refl)
type_name_is e commit_attempt q = rw q (refl, refl, refl)
type_name_is e commit_task q = rw q (refl, refl, refl)
type_name_is e abort_task q = rw q (refl, refl, refl)

pub last_event-EndsAs :
    (events : List TaskEvent) → EndsAs (last_event (map parsed events)) (last_type events)
unfolding last_event
last_event-EndsAs [] = unfold EndsAs ends_with_type in (refl, refl, refl)
last_event-EndsAs (e ∷ []) = type_name_is e e.type refl
last_event-EndsAs (e ∷ f ∷ events) = last_event-EndsAs (f ∷ events)
