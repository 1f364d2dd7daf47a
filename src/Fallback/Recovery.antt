-- ===== src/Fallback/Recovery.antt =====
-- agent_txn/fallback_commit_recovery.h. The result pointer, which every caller in the program sets,
-- is a value that is passed on; the counters count entries of lists and do not wrap.
use Prim.Native.String.{String}
use data_agent_system.Prelude.{
  ℕ, suc, ◌+◌, Text, Bool, true, false, List, [], ◌∷◌, ◌++◌, Option, none, some, ◌&&◌, not, ◌==◌,
  length, drop, codes, text_eq, next_version, if◌then◌else◌,
}
use data_agent_system.Storage.Interface.{VersionedValue, VersionedKvStore}
use data_agent_system.Fallback.Disk.{Disk}
use data_agent_system.Fallback.Artifact.{FallbackCommitArtifact, FallbackCommitEntry}
use data_agent_system.Fallback.Persist.{write_artifact}

pub record FallbackRecoveryResult : Type 0 where
  pub recovered_artifact_count : ℕ
  pub skipped_terminal_artifact_count : ℕ
  pub rolled_forward_write_count : ℕ
  pub rolled_back_write_count : ℕ
  pub parse_failure_count : ℕ
  pub conflict_count : ℕ
  pub success : Bool
  pub reason : Text

abbrev pub fresh_result : FallbackRecoveryResult
fresh_result = record {
  recovered_artifact_count = 0;
  skipped_terminal_artifact_count = 0;
  rolled_forward_write_count = 0;
  rolled_back_write_count = 0;
  parse_failure_count = 0;
  conflict_count = 0;
  success = true;
  reason = [];
}

-- `FallbackEntryMatchesTarget`
unfoldable pub matches_target : FallbackCommitEntry → VersionedValue → Bool
matches_target entry current =
    current.exists
    && (current.version == next_version entry.expected_version
        && text_eq current.value entry.target_value)

-- `FallbackEntryMatchesPrevious`
unfoldable pub matches_previous : FallbackCommitEntry → VersionedValue → Bool
matches_previous entry current =
    if entry.previous_exists
    then current.exists
      && (current.version == entry.previous_version && text_eq current.value entry.previous_value)
    else not current.exists && current.version == 0

-- A failure that stops the recovery, with or without a conflict.
unfoldable pub failed_with : Text → FallbackRecoveryResult → FallbackRecoveryResult
failed_with reason r = record r { success = false; reason = reason }

unfoldable pub conflict_with : Text → FallbackRecoveryResult → FallbackRecoveryResult
conflict_with reason r = record r {
  success = false;
  conflict_count = r.conflict_count + 1;
  reason = reason;
}

-- The store and the disk, which the two procedures change.
pub record World (S : Type 0) : Type 0 where
  pub store : S
  pub disk : Disk

-- What a procedure leaves: its result, the artifact, the world and the recovery result.
pub record Outcome (S : Type 0) : Type 0 where
  pub done : Bool
  pub artifact : FallbackCommitArtifact
  pub world : World S
  pub result : FallbackRecoveryResult

prefix_or_conflict :
    FallbackCommitArtifact → ℕ → Option Text → FallbackRecoveryResult → ℕ × FallbackRecoveryResult
prefix_or_conflict artifact n none r = (n, r)
prefix_or_conflict artifact n (some key) r = (
  length artifact.entries + 1,
  conflict_with (codes "fallback recovery encountered non-prefix state at key: " ++ key) r,
)

module _ {S : Type 0} (kv : VersionedKvStore S) where
  -- The first loop of `DetectCommittedPrefix`.
  unfoldable pub committed_prefix : List FallbackCommitEntry → S → ℕ
  committed_prefix [] store = 0
  committed_prefix (entry ∷ entries) store =
      if matches_target entry (kv.get entry.key store)
      then suc (committed_prefix entries store)
      else 0

  -- The second loop: the key of the first entry that is not as it was.
  unfoldable pub first_moved : List FallbackCommitEntry → S → Option Text
  first_moved [] store = none
  first_moved (entry ∷ entries) store =
      if matches_previous entry (kv.get entry.key store)
      then first_moved entries store
      else some entry.key

  -- The size of the entries and one more stands for a conflict.
  unfoldable pub detect_committed_prefix :
      FallbackCommitArtifact → S → FallbackRecoveryResult → ℕ × FallbackRecoveryResult
  unfolding committed_prefix first_moved prefix_or_conflict conflict_with
  detect_committed_prefix artifact store r =
      let n = committed_prefix artifact.entries store in
      prefix_or_conflict artifact n (first_moved (drop n artifact.entries) store) r

module _ {S : Type 0} where
  unfoldable pub stop : FallbackCommitArtifact → World S → FallbackRecoveryResult → Outcome S
  stop artifact world r = record { done = false; artifact = artifact; world = world; result = r }

  -- `WriteFallbackCommitArtifact`, and the return where it fails.
  unfoldable pub persist :
      String
      → Text
      → FallbackCommitArtifact
      → World S
      → FallbackRecoveryResult
      → (World S → Outcome S)
      → Outcome S
  unfolding stop failed_with
  persist reason path artifact world r continue =
      let (disk, ok) = write_artifact artifact path world.disk in
      let world' : World S = record world { disk = disk } in
      if ok then continue world' else stop artifact world' (failed_with (codes reason ++ path) r)
