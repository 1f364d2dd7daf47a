-- ===== src/Runtime/Session.antt =====
-- runtime/task_session.h
use data_agent_system.Prelude.{
  ℕ, ◌+◌, ◌≡◌, arith, Text, Bool, true, false, List, [], ◌∷◌, ◌++◌, length,
}
use data_agent_system.Prelude.Int.{ℤ}
use data_agent_system.Txn.Context.{AgentTxnContext}
use data_agent_system.Runtime.Task.{TaskContext, running, committed, aborted}
use data_agent_system.Runtime.Plan.{ExecutionPlan}

pub data TaskEventType : Type 0 where
  submit_task create_branch read write savepoint rollback_to_savepoint stage_branch : TaskEventType
  commit_attempt commit_task abort_task : TaskEventType

pub record TaskEvent : Type 0 where
  pub sequence_number : ℕ
  pub type : TaskEventType
  pub branch_id : Text
  pub object_id : Text
  pub detail : Text
  pub numeric_value : ℤ

pub record TaskSession (D : Type 0) : Type 0 where
  pub task : TaskContext
  pub plan : ExecutionPlan D
  pub txn : AgentTxnContext D
  pub commit_attempts : ℕ
  pub is_committed : Bool
  pub events : List TaskEvent

module _ {D : Type 0} where
  unfoldable pub mark_running : TaskSession D → TaskSession D
  mark_running s = record s { task = record s.task { phase = running } }

  unfoldable pub mark_committed : TaskSession D → TaskSession D
  mark_committed s = record s { task = record s.task { phase = committed }; is_committed = true }

  unfoldable pub mark_aborted : TaskSession D → TaskSession D
  mark_aborted s = record s { task = record s.task { phase = aborted }; is_committed = false }

  unfoldable pub record_event :
      TaskEventType → Text → Text → Text → ℤ → TaskSession D → TaskSession D
  record_event type branch_id object_id detail numeric_value s = record s {
    events =
        s.events
        ++ record {
          sequence_number = length s.events;
          type = type;
          branch_id = branch_id;
          object_id = object_id;
          detail = detail;
          numeric_value = numeric_value;
        }
          ∷ [];
  }

-- The events carry the numbers from `n` on, without a gap.
abbrev pub NumberedFrom : ℕ → List TaskEvent → Type 0
NumberedFrom n [] = Unit
NumberedFrom n (e ∷ events) = (e.sequence_number ≡ n) × NumberedFrom (n + 1) events

NumberedFrom-append :
    (n : ℕ) (events : List TaskEvent) (e : TaskEvent)
    → NumberedFrom n events
    → e.sequence_number ≡ n + length events
    → NumberedFrom n (events ++ e ∷ [])
NumberedFrom-append n [] e h q = (omega arith, tt)
NumberedFrom-append n (f ∷ events) e h q =
    (h.0, NumberedFrom-append (n + 1) events e h.1 (omega arith))

-- Recording an event keeps the events numbered from 0 in their order.
pub record_event-NumberedFrom :
    {D : Type 0} (type : TaskEventType) (branch_id object_id detail : Text) (value : ℤ)
    (s : TaskSession D)
    → NumberedFrom 0 s.events
    → NumberedFrom 0 (record_event type branch_id object_id detail value s).events
unfolding record_event
record_event-NumberedFrom type branch_id object_id detail value s h =
    NumberedFrom-append 0 s.events _ h (omega arith)
