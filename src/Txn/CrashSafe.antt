-- ===== src/Txn/CrashSafe.antt =====
-- `CommitWinnerWithoutBatchCrashSafe` and `RollbackCrashSafeArtifact` of
-- agent_txn/commit_manager.h: every step of the writes is noted in an artifact first.
use data_agent_system.Prelude.{
  ℕ, ◌+◌, Text, Bool, true, false, List, [], ◌∷◌, ◌++◌, none, some, ◌==◌, ◌&&◌, ◌||◌, not, ltb,
  codes, is_empty, if◌then◌else◌,
}
use data_agent_system.Prelude.Map.{Map, find}
use data_agent_system.Storage.Interface.{VersionedValue, VersionCheck, WriteOp, VersionedKvStore}
use data_agent_system.Fallback.Artifact.{
  FallbackCommitArtifact, FallbackCommitEntry, prepared, applying, committed,
}
use data_agent_system.Fallback.Persist.{write_artifact}
use data_agent_system.Fallback.Recovery.{World, Outcome, fresh_result}
use data_agent_system.Fallback.Backward.{resume_rollback_fallback_commit}
use data_agent_system.Txn.Context.{Failure, FallbackCommitConfig, set_failure, set_failure_if_unset}
use data_agent_system.Txn.Plain.{expected_versions}
use data_agent_system.Txn.Checks.{Attempt, refused, went_on}

pub record CrashSafeOutcome (S : Type 0) : Type 0 where
  pub done : Bool
  pub artifact : FallbackCommitArtifact
  pub world : World S
  pub failure : Failure

abbrev pub entry_of : WriteOp → ℕ → VersionedValue → FallbackCommitEntry
entry_of w version current = record {
  key = w.key;
  expected_version = version;
  target_value = w.value;
  previous_value = current.value;
  previous_version = current.version;
  previous_exists = current.exists;
}

cons_entry :
    FallbackCommitEntry → Attempt (List FallbackCommitEntry) → Attempt (List FallbackCommitEntry)
cons_entry entry (refused failure) = refused failure
cons_entry entry (went_on entries) = went_on (entry ∷ entries)

pub new_artifact : Text → Text → List FallbackCommitEntry → FallbackCommitArtifact
new_artifact txn_id task_id entries = record {
  txn_id = txn_id;
  task_id = task_id;
  phase = prepared;
  applied_count = 0;
  entries = entries;
}

module _ {S : Type 0} where
  unfoldable pub stop : FallbackCommitArtifact → World S → Failure → CrashSafeOutcome S
  stop artifact world failure = record {
    done = false;
    artifact = artifact;
    world = world;
    failure = failure;
  }

  -- `WriteFallbackCommitArtifact`, and the return where it fails.
  unfoldable pub persist :
      Text
      → Text
      → FallbackCommitArtifact
      → World S
      → Failure
      → (World S → CrashSafeOutcome S)
      → CrashSafeOutcome S
  unfolding stop
  persist reason path artifact world failure continue =
      let (disk, ok) = write_artifact artifact path world.disk in
      let world' : World S = record world { disk = disk } in
      if ok then continue world' else stop artifact world' (set_failure reason failure)

module _ {S : Type 0} (kv : VersionedKvStore S) where
  -- The first loop: the entries of the artifact, before anything is written.
  unfoldable pub prepare_entries :
      Map ℕ → List WriteOp → S → Failure → Attempt (List FallbackCommitEntry)
  unfolding cons_entry
  prepare_entries expected [] store failure = went_on []
  prepare_entries expected (w ∷ writes) store failure = elim (find w.key expected) [
    | none ↦ refused (set_failure (codes "missing expected version for " ++ w.key) failure)
    | some version ↦
        let current = kv.get w.key store in
        let rest = prepare_entries expected writes store failure in
        if current.version == version
        then cons_entry (entry_of w version current) rest
        else refused (set_failure (codes "fallback write version changed for " ++ w.key) failure)
  ]

  rolled_back_failure : Outcome S → Failure → Failure
  rolled_back_failure o failure =
      if o.done
      then failure
      else set_failure_if_unset
          (if is_empty o.result.reason then codes "fallback rollback failed" else o.result.reason)
          failure

  -- `RollbackCrashSafeArtifact`, which always returns false.
  unfoldable pub rollback_artifact :
      Text → FallbackCommitArtifact → World S → Failure → CrashSafeOutcome S
  unfolding rolled_back_failure stop
  rollback_artifact path artifact world failure =
      let o = resume_rollback_fallback_commit kv path artifact world fresh_result in
      stop o.artifact o.world (rolled_back_failure o failure)

  finish : Text → FallbackCommitArtifact → World S → Failure → CrashSafeOutcome S
  unfolding persist
  finish path artifact world failure =
      let artifact' : FallbackCommitArtifact = record artifact { phase = committed } in
      persist (codes "failed to persist fallback commit state") path artifact' world failure
        λ w. record { done = true; artifact = artifact'; world = w; failure = failure }

  is_crash : ℕ → ℕ → Bool
  is_crash limit count = ltb 0 limit && count == limit

  -- The loop over the entries of the artifact.
  unfoldable pub apply_entries :
      FallbackCommitConfig
      → List FallbackCommitEntry
      → FallbackCommitArtifact
      → World S
      → Failure
      → CrashSafeOutcome S
  unfolding rollback_artifact finish stop persist is_crash
  apply_entries config [] artifact world failure =
      finish config.artifact_path artifact world failure
  apply_entries config (entry ∷ entries) artifact world failure =
      let path = config.artifact_path in
      let current = kv.get entry.key world.store in
      let (store, ok) =
        kv.put_if_version entry.key entry.expected_version entry.target_value world.store in
      let written : World S = record world { store = store } in
      let count = artifact.applied_count + 1 in
      let artifact' : FallbackCommitArtifact = record artifact {
        applied_count = count;
        phase = applying;
      } in
      let rest = λ (w : World S). apply_entries config entries artifact' w failure in
      if not (current.version == entry.expected_version) || not current.exists
      then rollback_artifact path artifact world
          (set_failure (codes "fallback write version changed for " ++ entry.key) failure)
      else if not ok
      then rollback_artifact path artifact written
          (set_failure (codes "fallback conditional write failed for " ++ entry.key) failure)
      else persist (codes "failed to persist fallback apply progress") path artifact' written
          failure
          λ w.
            if is_crash config.simulate_crash_after_apply_count count
            then stop artifact' w
                (set_failure (codes "simulated crash during fallback commit") failure)
            else rest w

  unfoldable pub commit_crash_safe :
      Text
      → Text
      → FallbackCommitConfig
      → List VersionCheck
      → List WriteOp
      → World S
      → Failure
      → CrashSafeOutcome S
  unfolding expected_versions prepare_entries apply_entries new_artifact
  commit_crash_safe txn_id task_id config checks writes world failure =
      let artifact = new_artifact txn_id task_id in
      elim (prepare_entries (expected_versions checks []) writes world.store failure) [
        | refused failure' ↦ stop (artifact []) world failure'
        | went_on entries ↦
            persist (codes "failed to persist fallback prepare artifact") config.artifact_path
              (artifact entries) world failure
              λ w. apply_entries config entries (artifact entries) w failure
      ]
