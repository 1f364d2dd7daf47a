-- ===== src/Fallback/Backward.antt =====
-- `ResumeRollbackFallbackCommit` of agent_txn/fallback_commit_recovery.h
use data_agent_system.Prelude.{
  ℕ, ◌+◌, Text, Bool, true, false, List, [], ◌∷◌, ◌++◌, length, take, reverse, ltb, codes,
  next_version, if◌then◌else◌,
}
use data_agent_system.Storage.Interface.{VersionedKvStore}
use data_agent_system.Fallback.Artifact.{
  FallbackCommitArtifact, FallbackCommitEntry, rolling_back, rolled_back,
}
use data_agent_system.Fallback.Recovery.{
  FallbackRecoveryResult, World, Outcome, conflict_with, matches_target, matches_previous,
  detect_committed_prefix, stop, persist,
}

module _ {S : Type 0} where
  pub finish_rollback : Text → FallbackCommitArtifact → World S → FallbackRecoveryResult → Outcome S
  unfolding persist
  finish_rollback path artifact world r =
      let artifact' : FallbackCommitArtifact = record artifact { phase = rolled_back } in
      persist "failed to persist fallback terminal state: " path artifact' world r
        λ world'. record { done = true; artifact = artifact'; world = world'; result = r }

module _ {S : Type 0} (kv : VersionedKvStore S) where
  -- The write that takes an entry back.
  unfoldable pub take_back : FallbackCommitEntry → S → S × Bool
  take_back entry store =
      if entry.previous_exists
      then kv.put_if_version entry.key (next_version entry.previous_version) entry.previous_value
          store
      else kv.delete_if_version entry.key (next_version entry.expected_version) store

  -- One round for an entry that matches its target, with the artifact before and after it; `rest`
  -- is the loop that follows.
  roll_back_entry :
      Text
      → FallbackCommitEntry
      → FallbackCommitArtifact
      → FallbackCommitArtifact
      → World S
      → FallbackRecoveryResult
      → (World S → FallbackRecoveryResult → Outcome S)
      → S × Bool
      → Outcome S
  unfolding persist stop conflict_with
  roll_back_entry path entry artifact artifact' world r rest (store, true) =
      persist "failed to persist fallback rollback progress: " path artifact'
        (record world { store = store }) r
        λ w. rest w (record r { rolled_back_write_count = r.rolled_back_write_count + 1 })
  roll_back_entry path entry artifact artifact' world r rest (store, false) =
      stop artifact (record world { store = store })
        (conflict_with (codes "fallback recovery rollback failed for key: " ++ entry.key) r)

  -- The loop of `ResumeRollbackFallbackCommit`: the number is `applied_count`, and the list holds
  -- the applied entries, the last one first.
  unfoldable pub rollback_loop :
      Text
      → List FallbackCommitEntry
      → FallbackCommitArtifact
      → World S
      → FallbackRecoveryResult
      → Outcome S
  unfolding finish_rollback persist stop conflict_with roll_back_entry take_back
  rollback_loop path [] artifact world r = finish_rollback path artifact world r
  rollback_loop path (entry ∷ applied) artifact world r =
      let current = kv.get entry.key world.store in
      let artifact' : FallbackCommitArtifact = record artifact { applied_count = length applied } in
      let rest =
        λ (w : World S) (r' : FallbackRecoveryResult). rollback_loop path applied artifact' w r' in
      if matches_previous entry current
      then persist "failed to persist fallback rollback progress: " path artifact' world r
          (λ w. rest w r)
      else if matches_target entry current
      then roll_back_entry path entry artifact artifact' world r rest (take_back entry world.store)
      else stop artifact world
          (conflict_with (codes "fallback recovery conflict for key: " ++ entry.key) r)

  start_rollback : Text → FallbackCommitArtifact → World S → ℕ × FallbackRecoveryResult → Outcome S
  unfolding persist rollback_loop stop
  start_rollback path artifact world (n, r) =
      let artifact' : FallbackCommitArtifact = record artifact {
        applied_count = n;
        phase = rolling_back;
      } in
      if ltb (length artifact.entries) n
      then stop artifact world r
      else persist "failed to persist fallback rollback state: " path artifact' world r
          λ world'. rollback_loop path (reverse (take n artifact.entries)) artifact' world' r

  unfoldable pub resume_rollback_fallback_commit :
      Text → FallbackCommitArtifact → World S → FallbackRecoveryResult → Outcome S
  unfolding detect_committed_prefix start_rollback
  resume_rollback_fallback_commit path artifact world r =
      start_rollback path artifact world (detect_committed_prefix kv artifact world.store r)
