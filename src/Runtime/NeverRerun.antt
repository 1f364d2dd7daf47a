-- ===== src/Runtime/NeverRerun.antt =====
-- The recovery of a committed task: from its event log to the execution in TaskRuntime.
use data_agent_system.Prelude.{
  ◌≡◌, refl, sym, ap, ◌∙◌, subst, Text, true, Option, none, some, All, codes, ◌>>=◌,
}
use data_agent_system.Prelude.Map.{Map, find}
use data_agent_system.Storage.Interface.{VersionedKvStore}
use data_agent_system.Branch.Context.{Double, Casts}
use data_agent_system.Fallback.Recovery.{World}
use data_agent_system.Runtime.Session.{TaskSession}
use data_agent_system.Runtime.EventWriter.{task_event_log_text}
use data_agent_system.Runtime.EventReader.{
  ParsedTaskEventLogArtifact, parse_task_event_log_artifact,
}
use data_agent_system.Runtime.Decision.{
  TaskRecoveryDecision, skip_committed, recover_task_session_decision,
}
use data_agent_system.Runtime.RecoveryPlan.{build_task_recovery_plan}
use data_agent_system.Runtime.RecoveredSession.{
  RecoveredTaskSession, recover_task_session_from_artifact,
}
use data_agent_system.Runtime.Execution.{
  TaskRecoveryExecution, TaskRecoveryCommandType, noop, build_task_recovery_execution, command_of,
  set_task_metadata,
}
use data_agent_system.Runtime.Operations.{Result, threw, returned, FallbackCommitRuntimeConfig}
use data_agent_system.Runtime.Rebuild.{
  and_then, of_option, missing_key, apply_recovered_terminal_state, rebuild_recovered_session_state,
  recover_session_of_artifact, recover_session_from_log, build_recovery_execution_from_log,
}
use data_agent_system.Runtime.Resume.{
  execute_recovery_execution, execute_command, with_session, status_key,
}
use data_agent_system.Runtime.EventRoundTrip.{IsRecordable}
use data_agent_system.Runtime.LogRoundTrip.{logged, parse_task_event_log-logged}
use data_agent_system.Runtime.Verdict.{verdict, logged-Decides, skipped}

-- A value that a `Result` of this kind always has.
abbrev Returns : {A : Type 0} → (A → Type 0) → Result A → Type 0
Returns P (threw message) = Unit
Returns P (returned a) = P a

Returns-and_then :
    {A B : Type 0} (P : A → Type 0) (Q : B → Type 0) (r : Result A) (f : A → Result B)
    → Returns P r
    → ((a : A) → P a → Returns Q (f a))
    → Returns Q (and_then r f)
unfolding and_then
Returns-and_then P Q (threw message) f h k = tt
Returns-and_then P Q (returned a) f h k = k a h

Returns-bind :
    {A B : Type 0} (message : Text) (P : B → Type 0) (o : Option A) (f : A → Option B)
    → ((a : A) → Returns P (of_option message (f a)))
    → Returns P (of_option message (o >>= f))
unfolding of_option
Returns-bind message P none f h = tt
Returns-bind message P (some a) f h = h a

Returns-any : {A : Type 0} (r : Result A) → Returns (λ a. Unit) r
Returns-any (threw message) = tt
Returns-any (returned a) = tt

module _ {D S : Type 0} (fp : Double D) (casts : Casts D) (kv : VersionedKvStore S)
    (config : FallbackCommitRuntimeConfig) (store : S) (path : Text) where
  -- The recovery of a session keeps the decision of its log.
  abbrev Decided : ParsedTaskEventLogArtifact → RecoveredTaskSession D → Type 0
  Decided a r = r.recovery_plan.decision ≡ recover_task_session_decision path a

  recovered-Decided :
      (a : ParsedTaskEventLogArtifact)
      → Returns
          (Decided a)
          (of_option missing_key (recover_task_session_from_artifact fp casts path a))
  unfolding recover_task_session_from_artifact build_task_recovery_plan of_option
  recovered-Decided a =
      Returns-bind missing_key (Decided a) (find (codes "commit_attempts") a.metadata) _
        λ c. Returns-bind missing_key (Decided a) (find (codes "committed") a.metadata) _ λ f. refl

  recover_session_of_artifact-Decided :
      (a : ParsedTaskEventLogArtifact)
      → Returns (Decided a) (recover_session_of_artifact fp casts kv config store path a)
  unfolding recover_session_of_artifact apply_recovered_terminal_state
  recover_session_of_artifact-Decided a =
      Returns-and_then (Decided a) (Decided a) _ _ (recovered-Decided a) λ r d.
        Returns-and_then (λ s. Unit) (Decided a)
          (rebuild_recovered_session_state fp casts kv config store a r.session)
          (λ s. returned (apply_recovered_terminal_state (record r { session = s })))
          (Returns-any (rebuild_recovered_session_state fp casts kv config store a r.session))
          (λ s u. d)

  -- What is executed for a log of a session that is marked as committed.
  IsNoop : TaskRecoveryExecution D → Type 0
  IsNoop e = e.command_type ≡ noop

  build-IsNoop :
      (s : TaskSession D)
      → s.is_committed ≡ true
      → (r : RecoveredTaskSession D) → Decided (logged s) r
      → IsNoop (build_task_recovery_execution r)
  unfolding IsNoop build_task_recovery_execution command_of
  build-IsNoop s c r d =
      let action : r.recovery_plan.decision.action ≡ skip_committed =
        ap (λ (x : TaskRecoveryDecision). x.action) d
        ∙ skipped s (verdict (recover_task_session_decision path (logged s))) c
            (logged-Decides s path) in
      rw action refl

  parsed_log :
      (files : Map Text) (s : TaskSession D)
      → find path files ≡ some (task_event_log_text s)
      → All IsRecordable s.events
      → parse_task_event_log_artifact files path ≡ some (logged s)
  unfolding parse_task_event_log_artifact
  parsed_log files s h n = rw (h, parse_task_event_log_artifact) (parse_task_event_log-logged s n)

  recovered_session :
      (files : Map Text) (s : TaskSession D)
      → find path files ≡ some (task_event_log_text s)
      → All IsRecordable s.events
      → recover_session_from_log fp casts kv config store files path
        ≡ recover_session_of_artifact fp casts kv config store path (logged s)
  unfolding recover_session_from_log
  recovered_session files s h n = rw (parsed_log files s h n, recover_session_from_log) refl

  execution-IsNoop :
      (files : Map Text) (s : TaskSession D)
      → find path files ≡ some (task_event_log_text s)
      → All IsRecordable s.events
      → s.is_committed ≡ true
      → Returns IsNoop (build_recovery_execution_from_log fp casts kv config store files path)
  unfolding build_recovery_execution_from_log
  execution-IsNoop files s h n c =
      Returns-and_then (Decided (logged s)) IsNoop
        (recover_session_from_log fp casts kv config store files path)
        (λ r. returned (build_task_recovery_execution r))
        (subst (Returns (Decided (logged s))) (sym (recovered_session files s h n))
          (recover_session_of_artifact-Decided (logged s)))
        (build-IsNoop s c)

  -- The log of a session that is marked as committed asks for no work: whenever an execution is
  -- built from the file that holds it, executing this leaves the store and the disk as they are,
  -- succeeds, and changes nothing of the session but a note in the metadata of the task.
  pub committed_never_rerun :
      (files : Map Text) (s : TaskSession D) (e : TaskRecoveryExecution D) (world : World S)
      → find path files ≡ some (task_event_log_text s)
      → All IsRecordable s.events
      → s.is_committed ≡ true
      → build_recovery_execution_from_log fp casts kv config store files path ≡ returned e
      → execute_recovery_execution fp casts kv config e world
        ≡ some (record {
          done = true;
          execution = with_session (set_task_metadata status_key (codes "noop") e.session) e;
          world = world;
        })
  unfolding execute_recovery_execution execute_command IsNoop
  committed_never_rerun files s e world h n c b =
      let is_noop : e.command_type ≡ noop =
        subst (Returns IsNoop) b (execution-IsNoop files s h n c) in
      ap (λ (c : TaskRecoveryCommandType). execute_command fp casts kv config c e world) is_noop
