-- ===== src/Tests/Runtime.antt =====
-- Recovery from logs, plans and sessions at concrete inputs.
use data_agent_system.Prelude.{
  Text, arith, some, ◌++◌, ℕ, true, next_version, false, ◌≡◌, ◌≢◌, ◌↔◌, refl, none, inr, List, [],
  ◌∷◌, All, codes, text_eq,
}
use data_agent_system.Prelude.Int.{pos}
use data_agent_system.Prelude.Map.{find}
use data_agent_system.Cache.WriteBuffer.Undo.{Distinct}
use data_agent_system.Storage.Memory.{memory_kv_store, get}
use data_agent_system.Storage.Laws.{memory-IsVersioned}
use data_agent_system.Log.Escape.{newline}
use data_agent_system.Log.Artifact.{ParsedCommitLogEntry, print_log_entry, parse_log_entry}
use data_agent_system.Log.Lines.Fields.{IsOnLine}
use data_agent_system.Log.Artifact.Fields.{parse_log_entry-print_log_entry}
use data_agent_system.Txn.Context.{CommitLogEntry}
use data_agent_system.Log.Recovery.{recover_entries, fresh_result}
use data_agent_system.Log.Redo.{IsRecovered, IsReady, DistinctEntries, recover_entries_redo}
use data_agent_system.Fallback.Artifact.{FallbackCommitArtifact, FallbackCommitEntry, applying}
use data_agent_system.Fallback.Recovery as Fallback
use data_agent_system.Fallback.Forward.{resume_forward_fallback_commit}
use data_agent_system.Fallback.Commits.{DistinctTargets, IsWritten, IsPending}
use data_agent_system.Fallback.RollForward.{IsForwarded, resume_forward_completes}
use data_agent_system.Runtime.Task.{created}
use data_agent_system.Runtime.Plan.{
  ExecutionPlan, validate_plan, validate_plan_iff, candidate_branch_ids, IsNamed, highest_score,
}
use data_agent_system.Runtime.Session.{
  TaskSession, NumberedFrom, record_event, record_event-NumberedFrom, submit_task,
}
use data_agent_system.Tests.Data.{note, store, txn, world}

abbrev logged : List ParsedCommitLogEntry
logged =
    record { key = note; expected_version = 2; value = codes "abxcd" }
    ∷ record { key = codes "other"; expected_version = 0; value = codes "1" }
    ∷ []

logged_distinct : DistinctEntries logged
unfolding text_eq
logged_distinct = ((refl, tt), (tt, tt))

logged-IsReady : All (IsReady memory_kv_store memory-IsVersioned store) logged
unfolding memory_kv_store get find text_eq
logged-IsReady = (inr refl, (inr refl, tt))

recover_entries_redo_example :
    IsRecovered memory_kv_store memory-IsVersioned logged store fresh_result
      (recover_entries memory_kv_store logged (store, fresh_result))
recover_entries_redo_example =
    recover_entries_redo memory_kv_store memory-IsVersioned logged store fresh_result
      logged_distinct logged-IsReady refl

abbrev pub plan : ExecutionPlan ℕ
plan = record {
  winner_selection_policy = highest_score;
  branch_plans =
      record {
        branch_id = codes "b1";
        candidate_id = codes "c1";
        rationale = [];
        initial_priority = 0;
      }
      ∷ record {
        branch_id = codes "b2";
        candidate_id = codes "c2";
        rationale = [];
        initial_priority = 1;
      }
      ∷ [];
}

validate_plan_iff_example : (validate_plan plan ≡ none) ↔ (
    (plan.branch_plans ≢ []) × All IsNamed plan.branch_plans × Distinct (candidate_branch_ids plan))
validate_plan_iff_example = validate_plan_iff plan

abbrev pub session : TaskSession ℕ
session = record {
  task = record {
    task_id = codes "task";
    objective = codes "note";
    workload_name = [];
    planner_id = [];
    phase = created;
    input_objects = [];
    output_objects = [];
    metadata = [];
  };
  plan = plan;
  txn = txn;
  commit_attempts = 0;
  is_committed = false;
  events = [];
}

record_event-NumberedFrom_example :
    NumberedFrom 0 (record_event submit_task [] [] (codes "note") (pos 0) session).events
record_event-NumberedFrom_example =
    record_event-NumberedFrom submit_task [] [] (codes "note") (pos 0) session tt

-- A commit of two writes that was interrupted after the first.
abbrev pub first_entry : FallbackCommitEntry
first_entry = record {
  key = note;
  expected_version = 1;
  target_value = codes "abx";
  previous_value = codes "ab";
  previous_version = 1;
  previous_exists = true;
}

abbrev pub second_entry : FallbackCommitEntry
second_entry = record {
  key = codes "other";
  expected_version = 0;
  target_value = codes "1";
  previous_value = [];
  previous_version = 0;
  previous_exists = false;
}

abbrev pub interrupted : FallbackCommitArtifact
interrupted = record {
  txn_id = codes "t1";
  task_id = codes "task";
  phase = applying;
  applied_count = 1;
  entries = first_entry ∷ second_entry ∷ [];
}

pub interrupted_distinct : DistinctTargets (first_entry ∷ second_entry ∷ [])
unfolding text_eq
interrupted_distinct = ((refl, tt), (tt, tt))

pub first_entry-IsWritten : All (IsWritten memory_kv_store store) (first_entry ∷ [])
unfolding memory_kv_store get find text_eq next_version
first_entry-IsWritten = (refl, tt)

pub second_entry-IsPending : All (IsPending memory_kv_store store) (second_entry ∷ [])
unfolding memory_kv_store get find text_eq
second_entry-IsPending =
    (record { value = refl; version = refl; exists = refl; same_version = refl }, tt)

resume_forward_completes_example :
    IsForwarded memory_kv_store
      (codes "artifact")
      (first_entry ∷ second_entry ∷ [])
      store
      interrupted
      (resume_forward_fallback_commit memory_kv_store
        (codes "artifact")
        interrupted
        world
        Fallback.fresh_result)
resume_forward_completes_example =
    resume_forward_completes memory_kv_store memory-IsVersioned (codes "artifact") interrupted world
      Fallback.fresh_result (first_entry ∷ []) (second_entry ∷ []) refl interrupted_distinct
      first_entry-IsWritten second_entry-IsPending refl

abbrev log_line : CommitLogEntry
log_line = record { key = codes "a\tb"; value = codes "x\ny"; expected_version = 2 }

parse_log_entry-print_log_entry_example :
    (text : Text) × (print_log_entry log_line ≡ text ++ newline ∷ [])
    × All IsOnLine text
    × (parse_log_entry text
        ≡ some (record {
          key = log_line.key;
          expected_version = log_line.expected_version;
          value = log_line.value;
        }))
parse_log_entry-print_log_entry_example =
    parse_log_entry-print_log_entry log_line (omega arith) refl
