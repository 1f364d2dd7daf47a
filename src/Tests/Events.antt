-- ===== src/Tests/Events.antt =====
-- Sessions and their event logs at concrete inputs.
use data_agent_system.Prelude.{ℕ, Text, true, ◌≡◌, refl, arith, some, [], ◌∷◌, codes, All, text_eq}
use data_agent_system.Prelude.Int.{pos, negsuc}
use data_agent_system.Branch.Context.{Casts}
use data_agent_system.Storage.Memory.{memory_kv_store}
use data_agent_system.Runtime.Task.{committed}
use data_agent_system.Runtime.Session.{TaskSession, TaskEvent}
use data_agent_system.Runtime.Session as Event
use data_agent_system.Runtime.EventWriter.{event_text, task_event_log_text}
use data_agent_system.Runtime.EventReader.{parse_event, parse_task_event_log}
use data_agent_system.Runtime.Decision.{recover_task_session_decision}
use data_agent_system.Runtime.Operations.{FallbackCommitRuntimeConfig, keep, submit_valid_task}
use data_agent_system.Runtime.EventRoundTrip.{IsRecordable, parsed, parse_event-event_text}
use data_agent_system.Runtime.LogMetadata.{
  session_artifact, parse_task_event_log-task_event_log_text,
}
use data_agent_system.Runtime.Verdict.{Decides, verdict, recover_task_session_decision-Decides}
use data_agent_system.Runtime.Coherent.{IsCoherent}
use data_agent_system.Runtime.Numbered.{submits, aborts, IsReachable-IsCoherent}
use data_agent_system.Runtime.Operations.{abort_task}
use data_agent_system.Prelude.Map.{Map, find, insert}
use data_agent_system.Log.Escape.{escape, unescape}
use data_agent_system.Log.Lines.{flag}
use data_agent_system.Intent.Number.{print_ℕ, print_ℤ}
use data_agent_system.Cache.WriteBuffer.Undo.{contains}
use data_agent_system.Runtime.Task.{set_metadata}
use data_agent_system.Runtime.Plan.{add_branch_plan}
use data_agent_system.Runtime.EventReader.{last_event}
use data_agent_system.Runtime.Execution.{TaskRecoveryExecution, set_task_metadata}
use data_agent_system.Runtime.Rebuild.{build_recovery_execution_from_log}
use data_agent_system.Runtime.Resume.{execute_recovery_execution, with_session, status_key}
use data_agent_system.Runtime.NeverRerun.{committed_never_rerun}
use data_agent_system.Runtime.Operations.{Result, threw, returned}
use data_agent_system.Tests.Data.{score, store, world}
use data_agent_system.Tests.Runtime.{plan, session}

abbrev casts : Casts ℕ
casts = record { of_int = λ a. 0; truncate = λ n. pos n }

abbrev config : FallbackCommitRuntimeConfig
config = record {
  artifact_dir = codes "artifacts";
  archive_dir = [];
  auto_recover_on_startup = true;
  committed_artifact_policy = keep;
  rolled_back_artifact_policy = keep;
}

abbrev staged_event : TaskEvent
staged_event = record {
  sequence_number = 0;
  type = Event.stage_branch;
  branch_id = codes "b1";
  object_id = [];
  detail = codes "two\tcolumns";
  numeric_value = negsuc 6;
}

-- The session of a committed task with two events.
abbrev closed : TaskSession ℕ
closed = record session {
  task = record session.task { phase = committed };
  commit_attempts = 1;
  is_committed = true;
  events =
      staged_event
      ∷ record staged_event { sequence_number = 1; type = Event.commit_task; numeric_value = pos 0 }
      ∷ [];
}

closed-IsRecordable : All IsRecordable closed.events
closed-IsRecordable = ((omega arith, omega arith), ((omega arith, omega arith), tt))

parse_event-event_text_example : parse_event (event_text staged_event) ≡ some (parsed staged_event)
parse_event-event_text_example = parse_event-event_text staged_event (omega arith, omega arith)

parse_task_event_log-task_event_log_text_example :
    parse_task_event_log (task_event_log_text closed) ≡ some (session_artifact closed)
parse_task_event_log-task_event_log_text_example =
    parse_task_event_log-task_event_log_text closed closed-IsRecordable

IsReachable-IsCoherent_example :
    IsCoherent (abort_task (submit_valid_task score casts memory_kv_store config session.task plan))
IsReachable-IsCoherent_example =
    IsReachable-IsCoherent score casts memory_kv_store config _
      (aborts _ (submits session.task plan))

-- A session that is at work on its first branch, where it has made a savepoint.
abbrev at_work : TaskSession ℕ
at_work = record session {
  events =
      record staged_event { type = Event.savepoint; detail = codes "sp" }
      ∷ record staged_event { sequence_number = 1; type = Event.read }
      ∷ [];
}

recover_task_session_decision-Decides_example :
    Decides at_work
      (verdict (recover_task_session_decision (codes "log") (session_artifact at_work)))
recover_task_session_decision-Decides_example =
    recover_task_session_decision-Decides (codes "log") at_work

abbrev log_files : Map Text
log_files = (codes "log", task_event_log_text closed) ∷ []

log_held : find (codes "log") log_files ≡ some (task_event_log_text closed)
unfolding find text_eq
log_held = refl

abbrev built : Result (TaskRecoveryExecution ℕ)
built =
    build_recovery_execution_from_log score casts memory_kv_store config store log_files
      (codes "log")

-- A `Result` that is no exception.
abbrev IsReturned : {A : Type 0} → Result A → Type 0
IsReturned (threw message) = ⊥
IsReturned (returned a) = Unit

value_of : {A : Type 0} → (r : Result A) → IsReturned r → A
value_of (threw message) h = absurd h
value_of (returned a) h = a

returned-value_of : {A : Type 0} (r : Result A) (h : IsReturned r) → r ≡ returned (value_of r h)
unfolding value_of
returned-value_of (threw message) h = absurd h
returned-value_of (returned a) h = refl

built-IsReturned : IsReturned built
unfolding build_recovery_execution_from_log task_event_log_text find text_eq escape print_ℕ flag
    print_ℤ insert set_metadata unescape last_event add_branch_plan contains
built-IsReturned = tt

abbrev execution : TaskRecoveryExecution ℕ
execution = value_of built built-IsReturned

committed_never_rerun_example :
    execute_recovery_execution score casts memory_kv_store config execution world
    ≡ some (record {
      done = true;
      execution =
          with_session (set_task_metadata status_key (codes "noop") execution.session) execution;
      world = world;
    })
committed_never_rerun_example =
    committed_never_rerun score casts memory_kv_store config store (codes "log") log_files closed
      execution world log_held closed-IsRecordable refl (returned-value_of built built-IsReturned)
