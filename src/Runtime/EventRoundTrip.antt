-- ===== src/Runtime/EventRoundTrip.antt =====
-- The line of an event of a task event log and its parser.
use data_agent_system.Prelude.{
  ℕ, suc, ◌^◌, ◌<◌, ◌≡◌, ◌≢◌, refl, Text, false, [], ◌∷◌, ◌++◌, some, All, arith, text_eq, is_empty,
}
use data_agent_system.Prelude.Int.{ℤ, pos, negsuc, FitsInt64}
use data_agent_system.Intent.Number.{print_ℕ, print_ℤ, parse_ℕ-print_ℕ}
use data_agent_system.Log.Escape.{escape, tab, IsPlain, unescape-escape, escape-IsPlain}
use data_agent_system.Log.Lines.{split_all}
use data_agent_system.Log.Lines.Fields.{
  IsOnLine, All-IsOnLine, All-tab, parse_ℕ-IsPlain, strtoull_digits,
}
use data_agent_system.Log.Lines.Unlines.{has_tab-is_empty, tab_ne_mark}
use data_agent_system.Log.Lines.Signed.{strtoll-print_ℤ}
use data_agent_system.Runtime.Session.{
  TaskEvent, TaskEventType, submit_task, create_branch, read, write, savepoint,
  rollback_to_savepoint, stage_branch, commit_attempt, commit_task, abort_task,
}
use data_agent_system.Runtime.EventWriter.{task_event_type_name, event_text}
use data_agent_system.Runtime.EventReader.{ParsedTaskEvent, parse_event, event_of_parts}
use data_agent_system.Runtime.Decision.{task_event_type_from_name}

-- A type of event is read back from its name.
pub task_event_type_from_name-task_event_type_name :
    (type : TaskEventType) → task_event_type_from_name (task_event_type_name type) ≡ type
unfolding task_event_type_from_name task_event_type_name text_eq
task_event_type_from_name-task_event_type_name submit_task = refl
task_event_type_from_name-task_event_type_name create_branch = refl
task_event_type_from_name-task_event_type_name read = refl
task_event_type_from_name-task_event_type_name write = refl
task_event_type_from_name-task_event_type_name savepoint = refl
task_event_type_from_name-task_event_type_name rollback_to_savepoint = refl
task_event_type_from_name-task_event_type_name stage_branch = refl
task_event_type_from_name-task_event_type_name commit_attempt = refl
task_event_type_from_name-task_event_type_name commit_task = refl
task_event_type_from_name-task_event_type_name abort_task = refl

task_event_type_name-IsPlain : (type : TaskEventType) → All IsPlain (task_event_type_name type)
unfolding task_event_type_name
task_event_type_name-IsPlain submit_task = ground arith
task_event_type_name-IsPlain create_branch = ground arith
task_event_type_name-IsPlain read = ground arith
task_event_type_name-IsPlain write = ground arith
task_event_type_name-IsPlain savepoint = ground arith
task_event_type_name-IsPlain rollback_to_savepoint = ground arith
task_event_type_name-IsPlain stage_branch = ground arith
task_event_type_name-IsPlain commit_attempt = ground arith
task_event_type_name-IsPlain commit_task = ground arith
task_event_type_name-IsPlain abort_task = ground arith

-- The first part of a text in which a tab follows.
split_all-tab :
    (t rest : Text) → All IsPlain t → split_all tab (t ++ tab ∷ rest) ≡ t ∷ split_all tab rest
unfolding split_all
split_all-tab [] rest p = refl
split_all-tab (c ∷ t) rest p = rw (split_all-tab t rest p.1) (ground (arith, p.0))

split_all_last : (t : Text) → All IsPlain t → split_all tab t ≡ t ∷ []
unfolding split_all
split_all_last [] p = refl
split_all_last (c ∷ t) p = rw (split_all_last t p.1) (ground (arith, p.0))

pub print_ℕ-IsPlain : (n : ℕ) → All IsPlain (print_ℕ n)
print_ℕ-IsPlain n = parse_ℕ-IsPlain _ _ (parse_ℕ-print_ℕ n)

print_ℤ-IsPlain : (a : ℤ) → All IsPlain (print_ℤ a)
unfolding print_ℤ
print_ℤ-IsPlain (pos n) = print_ℕ-IsPlain n
print_ℤ-IsPlain (negsuc n) = (ground arith, print_ℕ-IsPlain (suc n))

-- What the parser makes of an event.
abbrev pub parsed : TaskEvent → ParsedTaskEvent
parsed e = record {
  sequence_number = e.sequence_number;
  event_type = task_event_type_name e.type;
  branch_id = e.branch_id;
  object_id = e.object_id;
  numeric_value = e.numeric_value;
  detail = e.detail;
}

-- The numbers of an event are those of the program.
abbrev pub IsRecordable : TaskEvent → Type 0
IsRecordable e = (e.sequence_number < 2 ^ 64) × FitsInt64 e.numeric_value

split_all-event_text :
    (e : TaskEvent)
    → split_all tab (event_text e)
      ≡ print_ℕ e.sequence_number
        ∷ task_event_type_name e.type
        ∷ escape e.branch_id
        ∷ escape e.object_id
        ∷ print_ℤ e.numeric_value
        ∷ escape e.detail
        ∷ []
unfolding event_text
split_all-event_text e =
    rw
      (
        split_all-tab (print_ℕ e.sequence_number) _ (print_ℕ-IsPlain e.sequence_number),
        split_all-tab (task_event_type_name e.type) _ (task_event_type_name-IsPlain e.type),
        split_all-tab (escape e.branch_id) _ (escape-IsPlain e.branch_id),
        split_all-tab (escape e.object_id) _ (escape-IsPlain e.object_id),
        split_all-tab (print_ℤ e.numeric_value) _ (print_ℤ-IsPlain e.numeric_value),
        split_all_last (escape e.detail) (escape-IsPlain e.detail),
      )
      refl

-- Every event is read back from its line, whatever bytes its texts hold and also where they are
-- empty, if its numbers are 64-bit numbers.
pub parse_event-event_text :
    (e : TaskEvent) → IsRecordable e → parse_event (event_text e) ≡ some (parsed e)
unfolding parse_event event_of_parts
parse_event-event_text e (n, v) = rw (split_all-event_text e) (
    rw
      (
        strtoull_digits (print_ℕ e.sequence_number) e.sequence_number
            (parse_ℕ-print_ℕ e.sequence_number) n,
        strtoll-print_ℤ e.numeric_value v,
        unescape-escape e.branch_id,
        unescape-escape e.object_id,
        unescape-escape e.detail,
      )
      refl)

pub event_text-IsOnLine : (e : TaskEvent) → All IsOnLine (event_text e)
unfolding event_text
event_text-IsOnLine e = All-tab _ _ (All-IsOnLine _ (print_ℕ-IsPlain e.sequence_number)) (
    All-tab _ _ (All-IsOnLine _ (task_event_type_name-IsPlain e.type)) (
      All-tab _ _ (All-IsOnLine _ (escape-IsPlain e.branch_id)) (
        All-tab _ _ (All-IsOnLine _ (escape-IsPlain e.object_id)) (
          All-tab _ _ (All-IsOnLine _ (print_ℤ-IsPlain e.numeric_value))
            (All-IsOnLine _ (escape-IsPlain e.detail))))))

-- The line of an event is neither empty nor a mark.
pub tab-event_text :
    (e : TaskEvent)
    → (is_empty (event_text e) ≡ false)
      × ((mark : Text) → All (λ c. c ≢ tab) mark → text_eq (event_text e) mark ≡ false)
unfolding event_text
tab-event_text e = (
  has_tab-is_empty (print_ℕ e.sequence_number) _,
  λ mark h. tab_ne_mark (print_ℕ e.sequence_number) _ mark h,
)
