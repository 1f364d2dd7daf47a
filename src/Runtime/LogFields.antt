-- ===== src/Runtime/LogFields.antt =====
-- The keys and the texts of the first lines of a task event log.
use Prim.Native.String.{String}
use data_agent_system.Prelude.{
  ℕ, ◌+◌, ◌-◌, ◌*◌, ◌≡◌, Text, Bool, true, false, List, [], ◌∷◌, ◌++◌, some, All, All-append, arith,
  codes, length,
}
use data_agent_system.Prelude.Map.{Map}
use data_agent_system.Intent.Number.{print_ℕ, parse_ℕ-print_ℕ, parse_ℕ, digits_value}
use data_agent_system.Log.Escape.{escape, escape-IsPlain}
use data_agent_system.Log.Lines.{flag}
use data_agent_system.Log.Lines.Keys.{IsKeyByte, IsField}
use data_agent_system.Log.Lines.Fields.{IsOnLine, All-IsOnLine}
use data_agent_system.Runtime.Task.{TaskContext, ObjectReference}
use data_agent_system.Runtime.Session.{TaskSession}
use data_agent_system.Runtime.EventWriter.{
  indexed, object_fields, metadata_entry_fields, task_context_fields, state_fields, session_fields,
}
use data_agent_system.Runtime.EventRoundTrip.{print_ℕ-IsPlain}

digits-IsKeyByte : (n m : ℕ) (t : Text) → digits_value n t ≡ some m → All IsKeyByte t
unfolding digits_value
digits-IsKeyByte n m [] h = tt
digits-IsKeyByte n m (c ∷ t) h = ground (arith, digits-IsKeyByte (n * 10 + (c - b'0')) m t)

parse_ℕ-IsKeyByte : (t : Text) (v : ℕ) → parse_ℕ t ≡ some v → All IsKeyByte t
unfolding parse_ℕ
parse_ℕ-IsKeyByte [] v h = tt
parse_ℕ-IsKeyByte (c ∷ t) v h = digits-IsKeyByte 0 v (c ∷ t) h

indexed-IsKeyByte :
    (name : String) (i : ℕ) (part : String)
    → All IsKeyByte (codes name)
    → All IsKeyByte (codes part)
    → All IsKeyByte (indexed name i part)
indexed-IsKeyByte name i part h k =
    All-append IsKeyByte (codes name ++ print_ℕ i) (codes part)
      (All-append IsKeyByte (codes name) (print_ℕ i) h
        (parse_ℕ-IsKeyByte (print_ℕ i) i (parse_ℕ-print_ℕ i)))
      k

escape-IsOnLine : (t : Text) → All IsOnLine (escape t)
escape-IsOnLine t = All-IsOnLine (escape t) (escape-IsPlain t)

print_ℕ-IsOnLine : (n : ℕ) → All IsOnLine (print_ℕ n)
print_ℕ-IsOnLine n = All-IsOnLine (print_ℕ n) (print_ℕ-IsPlain n)

object_fields-IsField :
    (name : String) (i : ℕ) (objects : List ObjectReference)
    → All IsKeyByte (codes name)
    → All IsField (object_fields name i objects)
unfolding object_fields
object_fields-IsField name i [] h = tt
object_fields-IsField name i (o ∷ objects) h = (
  (indexed-IsKeyByte name i "_id" h (ground arith), escape-IsOnLine o.object_id),
  (
    (indexed-IsKeyByte name i "_role" h (ground arith), escape-IsOnLine o.object_role),
    object_fields-IsField name (i + 1) objects h,
  ),
)

metadata_entry_fields-IsField :
    (i : ℕ) (metadata : Map Text) → All IsField (metadata_entry_fields i metadata)
unfolding metadata_entry_fields
metadata_entry_fields-IsField i [] = tt
metadata_entry_fields-IsField i ((key, value) ∷ metadata) = (
  (indexed-IsKeyByte "task_metadata_" i "_key" (ground arith) (ground arith), escape-IsOnLine key),
  (
    (
      indexed-IsKeyByte "task_metadata_" i "_value" (ground arith) (ground arith),
      escape-IsOnLine value,
    ),
    metadata_entry_fields-IsField (i + 1) metadata,
  ),
)

task_context_fields-IsField : (task : TaskContext) → All IsField (task_context_fields task)
unfolding task_context_fields
task_context_fields-IsField task =
    let outputs = object_fields-IsField "output_object_" 0 task.output_objects (ground arith) in
    All-append IsField
      ((codes "input_object_count", print_ℕ (length task.input_objects))
        ∷ object_fields "input_object_" 0 task.input_objects)
      _
      (
        (ground arith, print_ℕ-IsOnLine (length task.input_objects)),
        object_fields-IsField "input_object_" 0 task.input_objects (ground arith),
      )
      (All-append IsField
        ((codes "output_object_count", print_ℕ (length task.output_objects))
          ∷ object_fields "output_object_" 0 task.output_objects)
        ((codes "task_metadata_count", print_ℕ (length task.metadata))
          ∷ metadata_entry_fields 0 task.metadata)
        ((ground arith, print_ℕ-IsOnLine (length task.output_objects)), outputs)
        (
          (ground arith, print_ℕ-IsOnLine (length task.metadata)),
          metadata_entry_fields-IsField 0 task.metadata,
        ))

flag-IsOnLine : (b : Bool) → All IsOnLine (flag b)
unfolding flag
flag-IsOnLine true = ground arith
flag-IsOnLine false = ground arith

module _ {D : Type 0} (s : TaskSession D) where
  pub session_fields-IsField : All IsField (session_fields s)
  unfolding session_fields state_fields
  session_fields-IsField = (
    (ground arith, escape-IsOnLine s.task.task_id),
    (
      (ground arith, escape-IsOnLine s.txn.txn_id),
      (
        (ground arith, escape-IsOnLine s.task.workload_name),
        (
          (ground arith, escape-IsOnLine s.task.planner_id),
          All-append IsField (task_context_fields s.task) (state_fields s)
              (task_context_fields-IsField s.task)
              (
                (ground arith, print_ℕ-IsOnLine _),
                (
                  (ground arith, print_ℕ-IsOnLine s.commit_attempts),
                  (
                    (ground arith, flag-IsOnLine s.is_committed),
                    ((ground arith, print_ℕ-IsOnLine (length s.events)), tt),
                  ),
                ),
              ),
        ),
      ),
    ),
  )
