-- ===== src/Log/Recovery.antt =====
-- agent_txn/commit_log_recovery.h, and `ReplayCommitLogArtifacts` of agent_txn/commit_log_replay.h.
-- The counters count entries and files and do not wrap.
use data_agent_system.Prelude.{
  ℕ, ◌+◌, Text, Bool, true, false, List, [], ◌∷◌, ◌++◌, Option, none, some, ◌==◌, ◌&&◌, codes,
  text_eq, next_version, if◌then◌else◌,
}
use data_agent_system.Prelude.Map.{Map, find, insert}
use data_agent_system.Storage.Interface.{VersionedValue, VersionedKvStore}
use data_agent_system.Log.Artifact.{ParsedCommitLogArtifact, ParsedCommitLogEntry, parse_log}

pub record RecoveryResult : Type 0 where
  pub applied_entry_count : ℕ
  pub skipped_committed_entry_count : ℕ
  pub skipped_non_committed_log_count : ℕ
  pub parse_failure_count : ℕ
  pub conflict_count : ℕ
  pub success : Bool
  pub reason : Text

abbrev pub fresh_result : RecoveryResult
fresh_result = record {
  applied_entry_count = 0;
  skipped_committed_entry_count = 0;
  skipped_non_committed_log_count = 0;
  parse_failure_count = 0;
  conflict_count = 0;
  success = true;
  reason = [];
}

-- `none` for a file that does not open or does not parse.
unfoldable pub parse_file : Map Text → Text → Option ParsedCommitLogArtifact
parse_file files path = elim (find path files) [ none ↦ none | some content ↦ parse_log content ]

has_status : Option Text → Bool
has_status none = false
has_status (some status) = text_eq status (codes "COMMITTED")

unfoldable pub is_committed_log : ParsedCommitLogArtifact → Bool
unfolding has_status
is_committed_log a = has_status (find (codes "status") a.metadata)

unfoldable pub is_written : ParsedCommitLogEntry → VersionedValue → Bool
is_written e current =
    current.exists
    && (current.version == next_version e.expected_version && text_eq current.value e.value)

module _ {S : Type 0} (kv : VersionedKvStore S) where
  -- One round of the inner loop. The result stops being a success just where the function returns.
  unfoldable pub recover_entry : ParsedCommitLogEntry → S × RecoveryResult → S × RecoveryResult
  unfolding is_written
  recover_entry e (store, r) =
      let (store', ok) = kv.put_if_version e.key e.expected_version e.value store in
      if is_written e (kv.get e.key store)
      then (store, record r { skipped_committed_entry_count = r.skipped_committed_entry_count + 1 })
      else if ok
      then (store', record r { applied_entry_count = r.applied_entry_count + 1 })
      else (
        store',
        record r {
          conflict_count = r.conflict_count + 1;
          success = false;
          reason = codes "recovery version conflict for key: " ++ e.key;
        },
      )

  unfoldable pub recover_entries :
      List ParsedCommitLogEntry → S × RecoveryResult → S × RecoveryResult
  unfolding recover_entry
  recover_entries [] state = state
  recover_entries (e ∷ entries) state =
      let state' = recover_entry e state in
      let rest = recover_entries entries state' in if state'.1.success then rest else state'

  unfoldable pub recover_committed_writes :
      Map Text → List Text → S × RecoveryResult → S × RecoveryResult
  unfolding recover_entries parse_file is_committed_log
  recover_committed_writes files [] state = state
  recover_committed_writes files (path ∷ paths) (store, r) = elim (parse_file files path) [
    | none ↦ (
      store,
      record r {
        parse_failure_count = r.parse_failure_count + 1;
        success = false;
        reason = codes "failed to parse commit log: " ++ path;
      },
    )
    | some a ↦
        let state' = recover_entries a.entries (store, r) in
        let rest = recover_committed_writes files paths state' in
        let skip = recover_committed_writes files paths (
          store,
          record r { skipped_non_committed_log_count = r.skipped_non_committed_log_count + 1 },
        ) in
        if is_committed_log a then (if state'.1.success then rest else state') else skip
  ]

pub record ReplayedObjectState : Type 0 where
  pub value : Text
  pub expected_version : ℕ
  pub source_log_path : Text

replay_entries :
    Text → List ParsedCommitLogEntry → Map ReplayedObjectState → Map ReplayedObjectState
replay_entries path [] state = state
replay_entries path (e ∷ entries) state = replay_entries path entries (
    insert e.key
      (record { value = e.value; expected_version = e.expected_version; source_log_path = path })
      state)

-- The last committed log that names a key decides.
unfoldable pub replay_commit_log_artifacts :
    Map Text → List Text → Map ReplayedObjectState → Map ReplayedObjectState
unfolding replay_entries parse_file is_committed_log
replay_commit_log_artifacts files [] state = state
replay_commit_log_artifacts files (path ∷ paths) state = elim (parse_file files path) [
  | none ↦ replay_commit_log_artifacts files paths state
  | some a ↦
      let skip = replay_commit_log_artifacts files paths state in
      let rest = replay_commit_log_artifacts files paths (replay_entries path a.entries state) in
      if is_committed_log a then rest else skip
]
