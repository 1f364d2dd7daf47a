-- ===== src/Runtime/Decided.antt =====
-- What is to be done with a session whose log is found, from the session itself.
use mathlib.Core.List.{reverse_aux}
use data_agent_system.Prelude.{
  ◌≡◌, refl, ◌∙◌, Text, Bool, true, false, ◌&&◌, List, [], ◌∷◌, Option, none, some, codes, text_eq,
  is_empty, map, if◌then◌else◌, Bool-cases, inl, inr,
}
use data_agent_system.Runtime.Session.{
  TaskEvent, TaskEventType, submit_task, create_branch, read, write, savepoint,
  rollback_to_savepoint, stage_branch, commit_attempt, commit_task, abort_task,
}
use data_agent_system.Runtime.EventWriter.{task_event_type_name}
use data_agent_system.Runtime.EventReader.{ParsedTaskEvent, last_event}
use data_agent_system.Runtime.Decision.{
  find_latest_branch, find_latest_savepoint, branch_among, savepoint_among, final_branch,
}
use data_agent_system.Runtime.EventRoundTrip.{parsed}

-- The branch of the last event that names one; empty for none.
abbrev pub last_branch : List TaskEvent → Text
last_branch [] = []
last_branch (e ∷ events) = if is_empty (last_branch events) then e.branch_id else last_branch events

abbrev pub is_savepoint : TaskEventType → Bool
is_savepoint savepoint = true
is_savepoint _ = false

-- The savepoint that was made last on a branch.
abbrev pub last_savepoint : Text → List TaskEvent → Option Text
last_savepoint branch_id [] = none
last_savepoint branch_id (e ∷ events) = elim (last_savepoint branch_id events) [
  | some later ↦ some later
  | none ↦ if text_eq e.branch_id branch_id && is_savepoint e.type then some e.detail else none
]

abbrev pub text_of : Option Text → Text
text_of none = []
text_of (some text) = text

-- The branch of the last event.
abbrev pub end_branch : List TaskEvent → Text
end_branch [] = []
end_branch (e ∷ []) = e.branch_id
end_branch (e ∷ f ∷ events) = end_branch (f ∷ events)

branch_among-reverse :
    (events : List TaskEvent) (more : List ParsedTaskEvent)
    → branch_among (reverse_aux (map parsed events) more)
      ≡ (if is_empty (last_branch events) then branch_among more else last_branch events)
unfolding branch_among
branch_among-reverse [] more = refl
branch_among-reverse (e ∷ events) more =
    branch_among-reverse events (parsed e ∷ more)
    ∙ elim (Bool-cases (is_empty (last_branch events))) [
      | inl h ↦ elim (Bool-cases (is_empty e.branch_id)) [
        | inl k ↦ rw (h, k) refl
        | inr k ↦ rw (h, k) refl
      ]
      | inr h ↦ rw (h, h) refl
    ]

is_empty_nil : (text : Text) → (if is_empty text then [] else text) ≡ text
is_empty_nil [] = refl
is_empty_nil (c ∷ text) = refl

pub find_latest_branch-last_branch :
    (events : List TaskEvent) → find_latest_branch (map parsed events) ≡ last_branch events
unfolding find_latest_branch branch_among
find_latest_branch-last_branch events =
    branch_among-reverse events [] ∙ is_empty_nil (last_branch events)

savepoint_is :
    (type : TaskEventType)
    → text_eq (task_event_type_name type) (codes "SAVEPOINT") ≡ is_savepoint type
unfolding task_event_type_name text_eq
savepoint_is submit_task = refl
savepoint_is create_branch = refl
savepoint_is read = refl
savepoint_is write = refl
savepoint_is savepoint = refl
savepoint_is rollback_to_savepoint = refl
savepoint_is stage_branch = refl
savepoint_is commit_attempt = refl
savepoint_is commit_task = refl
savepoint_is abort_task = refl

abbrev text_or : Option Text → Text → Text
text_or none text = text
text_or (some found) text = found

text_or_step :
    (later : Option Text) (b : Bool) (detail text : Text)
    → text_or later (if b then detail else text)
      ≡ text_or
          (elim later [ some later ↦ some later | none ↦ if b then some detail else none ])
          text
text_or_step none true detail text = refl
text_or_step none false detail text = refl
text_or_step (some later) b detail text = refl

savepoint_among-reverse :
    (branch_id : Text) (events : List TaskEvent) (more : List ParsedTaskEvent)
    → savepoint_among branch_id (reverse_aux (map parsed events) more)
      ≡ text_or (last_savepoint branch_id events) (savepoint_among branch_id more)
unfolding savepoint_among
savepoint_among-reverse branch_id [] more = refl
savepoint_among-reverse branch_id (e ∷ events) more =
    savepoint_among-reverse branch_id events (parsed e ∷ more)
    ∙ rw (savepoint_is e.type) (
        text_or_step (last_savepoint branch_id events)
          (text_eq e.branch_id branch_id && is_savepoint e.type) e.detail
          (savepoint_among branch_id more))

text_or_nil : (o : Option Text) → text_or o [] ≡ text_of o
text_or_nil none = refl
text_or_nil (some text) = refl

pub find_latest_savepoint-last_savepoint :
    (branch_id : Text) (events : List TaskEvent)
    → find_latest_savepoint branch_id (map parsed events)
      ≡ text_of (last_savepoint branch_id events)
unfolding find_latest_savepoint savepoint_among
find_latest_savepoint-last_savepoint branch_id events =
    savepoint_among-reverse branch_id events [] ∙ text_or_nil (last_savepoint branch_id events)

pub final_branch-end_branch :
    (events : List TaskEvent) → final_branch (last_event (map parsed events)) ≡ end_branch events
unfolding final_branch last_event
final_branch-end_branch [] = refl
final_branch-end_branch (e ∷ []) = refl
final_branch-end_branch (e ∷ f ∷ events) = final_branch-end_branch (f ∷ events)
