-- ===== src/Runtime/Commit.antt =====
-- `CommitTask` of runtime/task_runtime.h.
use data_agent_system.Prelude.{
  Bool, true, false, [], Option, none, some, codes, is_empty, next_version, if◌then◌else◌, ◌>>=◌,
}
use data_agent_system.Prelude.Int.{pos, wrap_int64}
use data_agent_system.Storage.Interface.{VersionedKvStore}
use data_agent_system.Branch.Context.{Double}
use data_agent_system.Fallback.Disk.{Disk}
use data_agent_system.Fallback.Recovery.{World}
use data_agent_system.Txn.Manager.{TxnOutcome, select_winner_and_commit}
use data_agent_system.Runtime.Session.{TaskSession, record_event, mark_committed, mark_aborted}
use data_agent_system.Runtime.Session as Event
use data_agent_system.Runtime.Execution.{set_task_metadata}
use data_agent_system.Runtime.Operations.{Result, threw, returned, FallbackCommitRuntimeConfig}
use data_agent_system.Runtime.Maintenance.{finalize_fallback_commit_artifact}

-- The session and the world after a call, with its result.
pub record TaskOutcome (D S : Type 0) : Type 0 where
  pub done : Bool
  pub session : TaskSession D
  pub world : World S

module _ {D : Type 0} where
  unfoldable pub count_attempt : TaskSession D → TaskSession D
  unfolding next_version record_event
  count_attempt s =
      let attempts = next_version s.commit_attempts in
      record_event Event.commit_attempt [] [] (codes "commit_attempt") (wrap_int64 (pos attempts))
        (record s { commit_attempts = attempts })

  -- The branches of the `if` on the result of the commit.
  unfoldable pub close_session : Bool → TaskSession D → TaskSession D
  unfolding mark_committed mark_aborted record_event
  close_session true s =
      record_event Event.commit_task s.txn.winner_branch_id [] s.txn.validation_result.reason
        (pos 0) (mark_committed s)
  close_session false s =
      record_event Event.abort_task s.txn.winner_branch_id [] s.txn.validation_result.reason (pos 0)
        (mark_aborted s)

  unfoldable pub note_maintenance : Bool → TaskSession D → TaskSession D
  unfolding set_task_metadata
  note_maintenance finalized s =
      let path = s.txn.fallback_commit.artifact_path in
      if is_empty path
      then s
      else set_task_metadata (codes "fallback_artifact_maintenance")
          (if finalized then codes "finalized_or_pending" else codes "finalize_failed")
          (set_task_metadata (codes "fallback_artifact_path") path s)

  -- What follows `FinalizeFallbackCommitArtifact`.
  unfoldable pub finish_commit :
      {S : Type 0} → Bool → TaskSession D → World S → Disk × Result Bool → Option (TaskOutcome D S)
  unfolding note_maintenance
  finish_commit done s world (d, threw message) = none
  finish_commit done s world (d, returned finalized) = some (record {
    done = done;
    session = note_maintenance finalized s;
    world = record world { disk = d };
  })

module _ {D S : Type 0} (fp : Double D) (kv : VersionedKvStore S)
    (config : FallbackCommitRuntimeConfig) where
  unfoldable pub commit_outcome : TaskSession D → TxnOutcome D S → Option (TaskOutcome D S)
  unfolding close_session finish_commit finalize_fallback_commit_artifact
  commit_outcome s o =
      finish_commit o.done (close_session o.done (record s { txn = o.txn })) o.world
        (finalize_fallback_commit_artifact config o.txn.fallback_commit.artifact_path o.world.disk)

  -- `none` is an exception.
  unfoldable pub commit_task : TaskSession D → World S → Option (TaskOutcome D S)
  unfolding count_attempt commit_outcome select_winner_and_commit
  commit_task s world =
      let s' = count_attempt s in
      select_winner_and_commit fp kv s'.txn world >>= λ o. commit_outcome s' o
