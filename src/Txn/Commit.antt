-- ===== src/Txn/Commit.antt =====
-- `CommitWinner` of agent_txn/commit_manager.h. The transaction is changed in its commit log only.
use data_agent_system.Prelude.{
  ◌≡◌, refl, ℕ, Text, Bool, true, false, List, [], Option, none, some, codes, is_empty, map,
  if◌then◌else◌,
}
use data_agent_system.Prelude.Map.{Map, find}
use data_agent_system.Cache.Entry.{ObjectCacheEntry}
use data_agent_system.Cache.WriteBuffer.{ordered_entries}
use data_agent_system.Storage.Interface.{VersionCheck, WriteOp, VersionedKvStore}
use data_agent_system.Branch.Context.{BranchContext}
use data_agent_system.Fallback.Recovery.{World}
use data_agent_system.Txn.Context.{AgentTxnContext, CommitLogEntry, Failure, set_failure_if_unset}
use data_agent_system.Txn.Checks.{
  Attempt, refused, went_on, Resolution, collect_checks, latest_intents, resolve_entries, checks_of,
}
use data_agent_system.Txn.Plain.{commit_without_batch}
use data_agent_system.Txn.CrashSafe.{commit_crash_safe}

-- What `CommitWinner` leaves: its result, the log of the transaction, the world and the failure.
pub record CommitOutcome (S : Type 0) : Type 0 where
  pub done : Bool
  pub commit_log : List CommitLogEntry
  pub world : World S
  pub failure : Failure

version_or_zero : Option ℕ → ℕ
version_or_zero none = 0
version_or_zero (some version) = version

unfoldable pub log_entry : Map ℕ → WriteOp → CommitLogEntry
unfolding version_or_zero
log_entry seen w = record {
  key = w.key;
  value = w.value;
  expected_version = version_or_zero (find w.key seen);
}

-- The result of one of the three ways to write.
pub record Written (S : Type 0) : Type 0 where
  pub done : Bool
  pub world : World S
  pub failure : Failure

module _ {S : Type 0} (kv : VersionedKvStore S) where
  write_batch : List VersionCheck → List WriteOp → World S → Failure → Written S
  write_batch checks writes world failure =
      let (store, ok) = kv.batch_put_if_version checks writes world.store in
      record { done = ok; world = record world { store = store }; failure = failure }

  write_plain : List VersionCheck → List WriteOp → World S → Failure → Written S
  write_plain checks writes world failure =
      let o = commit_without_batch kv checks writes world.store failure in
      record { done = o.done; world = record world { store = o.store }; failure = o.failure }

  write_crash_safe :
      {D : Type 0}
      → AgentTxnContext D
      → List VersionCheck
      → List WriteOp
      → World S
      → Failure
      → Written S
  write_crash_safe txn checks writes world failure =
      let o =
        commit_crash_safe kv txn.txn_id txn.task_id txn.fallback_commit checks writes world
          failure in
      record { done = o.done; world = o.world; failure = o.failure }

  -- The batch where the store has it, else the way that the artifact path chooses.
  unfoldable pub write_through :
      {D : Type 0}
      → AgentTxnContext D
      → List VersionCheck
      → List WriteOp
      → World S
      → Failure
      → Written S
  unfolding write_batch write_plain write_crash_safe
  write_through txn checks writes world failure =
      if kv.supports_atomic_batch_conditional_write
      then write_batch checks writes world failure
      else if is_empty txn.fallback_commit.artifact_path
      then write_plain checks writes world failure
      else write_crash_safe txn checks writes world failure

  failure_reason : Text
  failure_reason =
      if kv.supports_atomic_batch_conditional_write
      then codes "batch conditional write failed"
      else codes "fallback conditional write failed"

  unfoldable pub finish_commit :
      {D : Type 0} → AgentTxnContext D → Resolution → Written S → CommitOutcome S
  unfolding log_entry failure_reason
  finish_commit txn r o =
      if o.done
      then record {
        done = true;
        commit_log = map (log_entry r.seen) r.writes;
        world = o.world;
        failure = o.failure;
      }
      else record {
        done = false;
        commit_log = txn.commit_log;
        world = o.world;
        failure = set_failure_if_unset failure_reason o.failure;
      }

  unfoldable pub refuse : {D : Type 0} → AgentTxnContext D → World S → Failure → CommitOutcome S
  refuse txn world failure = record {
    done = false;
    commit_log = txn.commit_log;
    world = world;
    failure = failure;
  }

  unfoldable pub commit_resolved :
      {D : Type 0} → AgentTxnContext D → World S → Attempt Resolution → CommitOutcome S
  unfolding write_through finish_commit refuse
  commit_resolved txn world (refused failure) = refuse txn world failure
  commit_resolved txn world (went_on r) =
      finish_commit txn r (write_through txn (checks_of r.seen) r.writes world r.failure)

  unfoldable pub commit_entries :
      {D : Type 0}
      → AgentTxnContext D
      → BranchContext D
      → World S
      → Failure
      → Map ℕ
      → List ObjectCacheEntry
      → CommitOutcome S
  unfolding commit_resolved
  commit_entries txn winner world failure seen entries = commit_resolved txn world (
      resolve_entries kv world.store (latest_intents winner.intent_log.intents []) entries
        (record { seen = seen; writes = []; failure = failure }))

  -- What follows the loop over the reads; `none` is the exception of `Entries` for a listed object
  -- with no entry.
  unfoldable pub commit_collected :
      {D : Type 0}
      → AgentTxnContext D
      → BranchContext D
      → World S
      → Failure
      → Attempt (Map ℕ)
      → Option (CommitOutcome S)
  unfolding commit_entries refuse
  commit_collected txn winner world failure (refused failure') = some (refuse txn world failure')
  commit_collected txn winner world failure (went_on seen) =
      elim (ordered_entries winner.write_buffer) [
        | none ↦ none
        | some entries ↦ some (commit_entries txn winner world failure seen entries)
      ]

  unfoldable pub commit_winner :
      {D : Type 0}
      → AgentTxnContext D
      → BranchContext D
      → World S
      → Failure
      → Option (CommitOutcome S)
  unfolding commit_collected
  commit_winner txn winner world failure =
      commit_collected txn winner world failure (collect_checks failure winner.read_set.entries [])

  -- The outcome for a buffer whose entries are known.
  unfoldable pub commit_checked :
      {D : Type 0}
      → AgentTxnContext D
      → BranchContext D
      → List ObjectCacheEntry
      → World S
      → Failure
      → Attempt (Map ℕ)
      → CommitOutcome S
  unfolding commit_entries refuse
  commit_checked txn winner entries world failure (refused failure') = refuse txn world failure'
  commit_checked txn winner entries world failure (went_on seen) =
      commit_entries txn winner world failure seen entries

  commit_collected-commit_checked :
      {D : Type 0} (txn : AgentTxnContext D) (winner : BranchContext D)
      (entries : List ObjectCacheEntry) (world : World S) (failure : Failure)
      (attempt : Attempt (Map ℕ))
      → ordered_entries winner.write_buffer ≡ some entries
      → commit_collected txn winner world failure attempt
        ≡ some (commit_checked txn winner entries world failure attempt)
  unfolding commit_collected commit_checked
  commit_collected-commit_checked txn winner entries world failure (refused failure') found = refl
  commit_collected-commit_checked txn winner entries world failure (went_on seen) found =
      rw (found, commit_collected) refl

  pub commit_winner-commit_checked :
      {D : Type 0} (txn : AgentTxnContext D) (winner : BranchContext D)
      (entries : List ObjectCacheEntry) (world : World S) (failure : Failure)
      → ordered_entries winner.write_buffer ≡ some entries
      → commit_winner txn winner world failure
        ≡ some (
            commit_checked txn winner entries world failure
              (collect_checks failure winner.read_set.entries []))
  unfolding commit_winner
  commit_winner-commit_checked txn winner entries world failure found =
      commit_collected-commit_checked txn winner entries world failure _ found
