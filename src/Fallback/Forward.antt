-- ===== src/Fallback/Forward.antt =====
-- `ResumeForwardFallbackCommit` of agent_txn/fallback_commit_recovery.h
use data_agent_system.Prelude.{
  ℕ, ◌+◌, Text, true, List, [], ◌∷◌, ◌++◌, ◌==◌, length, drop, ltb, codes, if◌then◌else◌,
}
use data_agent_system.Storage.Interface.{VersionedKvStore}
use data_agent_system.Fallback.Artifact.{
  FallbackCommitArtifact, FallbackCommitEntry, FallbackCommitPhase, applying, committed,
}
use data_agent_system.Fallback.Recovery.{
  FallbackRecoveryResult, World, Outcome, conflict_with, detect_committed_prefix, stop, persist,
}

unfoldable pub phase_of_prefix : ℕ → ℕ → FallbackCommitPhase
phase_of_prefix n size = if n == size then committed else applying

module _ {S : Type 0} where
  unfoldable pub finish_forward :
      Text → FallbackCommitArtifact → World S → FallbackRecoveryResult → Outcome S
  unfolding persist
  finish_forward path artifact world r =
      let artifact' : FallbackCommitArtifact = record artifact { phase = committed } in
      persist "failed to persist fallback committed state: " path artifact' world r
        λ world'. record { done = true; artifact = artifact'; world = world'; result = r }

module _ {S : Type 0} (kv : VersionedKvStore S) where
  -- The loop of `ResumeForwardFallbackCommit` from entry `i`, over the entries that are left.
  unfoldable pub forward_loop :
      Text
      → ℕ
      → List FallbackCommitEntry
      → FallbackCommitArtifact
      → World S
      → FallbackRecoveryResult
      → Outcome S
  unfolding stop conflict_with persist finish_forward
  forward_loop path i [] artifact world r = finish_forward path artifact world r
  forward_loop path i (entry ∷ entries) artifact world r =
      let (store, ok) =
        kv.put_if_version entry.key entry.expected_version entry.target_value world.store in
      let artifact' : FallbackCommitArtifact = record artifact {
        applied_count = i + 1;
        phase = applying;
      } in
      let world' : World S = record world { store = store } in
      let rest = λ (w : World S).
        forward_loop path (i + 1) entries artifact' w
          (record r { rolled_forward_write_count = r.rolled_forward_write_count + 1 }) in
      if ok
      then persist "failed to persist fallback forward progress: " path artifact' world' r rest
      else stop artifact world'
          (conflict_with (codes "fallback recovery forward apply failed for key: " ++ entry.key) r)

  unfoldable pub start_forward :
      Text → FallbackCommitArtifact → World S → ℕ × FallbackRecoveryResult → Outcome S
  unfolding persist forward_loop phase_of_prefix stop
  start_forward path artifact world (n, r) =
      let artifact' : FallbackCommitArtifact = record artifact {
        applied_count = n;
        phase = phase_of_prefix n (length artifact.entries);
      } in
      if ltb (length artifact.entries) n
      then stop artifact world r
      else persist "failed to persist fallback forward state: " path artifact' world r
          λ world'. forward_loop path n (drop n artifact.entries) artifact' world' r

  unfoldable pub resume_forward_fallback_commit :
      Text → FallbackCommitArtifact → World S → FallbackRecoveryResult → Outcome S
  unfolding detect_committed_prefix start_forward
  resume_forward_fallback_commit path artifact world r =
      start_forward path artifact world (detect_committed_prefix kv artifact world.store r)
