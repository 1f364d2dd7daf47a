-- ===== src/Txn/Recovered.antt =====
-- The recovery from the log of a commit, on the store that the commit left.
use data_agent_system.Prelude.{
  ◌≡◌, refl, sym, ap, subst, ◌∙◌, true, Text, List, [], ◌∷◌, some, map, All, inl, inr, ℕ, length,
  length-map, text_eq, arith,
}
use data_agent_system.Prelude.Map.{Map, find}
use data_agent_system.Cache.WriteBuffer.Invariant.{IsWellFormed}
use data_agent_system.Storage.Memory.{MemoryKvStore, memory_kv_store}
use data_agent_system.Storage.Laws.{memory-IsVersioned}
use data_agent_system.Branch.Context.{BranchContext}
use data_agent_system.Fallback.Recovery.{World}
use data_agent_system.Log.Artifact.{ParsedCommitLogArtifact, print_log, txn_status_name}
use data_agent_system.Log.Lines.Fields.{IsOnLine}
use data_agent_system.Log.RoundTrip.{IsReadable, IsRead, as_read, parse_log-print_log}
use data_agent_system.Log.Recovery.{
  RecoveryResult, recover_entries, recover_committed_writes, parse_file, is_committed_log,
  fresh_result,
}
use data_agent_system.Log.Redo.{IsWritten, IsSkipped, recover_entries_skip}
use data_agent_system.Txn.Context.{AgentTxnContext, CommitLogEntry, Failure, committed}
use data_agent_system.Txn.Commit.{CommitOutcome, commit_winner}
use data_agent_system.Txn.BatchCommit.{IsApplied, CommitsOrRefuses, commit_winner_batch}

some-injective : {A : Type 0} {x y : A} → some x ≡ some y → x ≡ y
some-injective e = cc e

as_read-IsWritten :
    (s : MemoryKvStore) (log : List CommitLogEntry)
    → All (IsApplied s) log
    → All (IsWritten memory_kv_store memory-IsVersioned s) (map as_read log)
unfolding memory_kv_store
as_read-IsWritten s [] h = tt
as_read-IsWritten s (e ∷ log) h = (h.0, as_read-IsWritten s log h.1)

-- The recovery has found every write of a log with `count` entries in the store.
pub record FindsAll (left : MemoryKvStore) (count : ℕ) (o : MemoryKvStore × RecoveryResult)
    : Type 0 where
  pub store : o.0 ≡ left
  pub success : o.1.success ≡ true
  pub applied : o.1.applied_entry_count ≡ 0
  pub skipped : o.1.skipped_committed_entry_count ≡ count

committed-is_committed_log :
    {D : Type 0} (txn : AgentTxnContext D) (a : ParsedCommitLogArtifact)
    → IsRead txn a
    → txn.status ≡ committed
    → is_committed_log a ≡ true
unfolding is_committed_log txn_status_name text_eq
committed-is_committed_log txn a r c = rw (r.status, is_committed_log) (rw c refl)

recover_one :
    (a : ParsedCommitLogArtifact) (store : MemoryKvStore) (files : Map Text) (path : Text)
    → parse_file files path ≡ some a
    → is_committed_log a ≡ true
    → let o = recover_entries memory_kv_store a.entries (store, fresh_result) in
      o.1.success ≡ true
      → recover_committed_writes memory_kv_store files (path ∷ []) (store, fresh_result) ≡ o
unfolding recover_committed_writes
recover_one a store files path f c ok = rw (f, recover_committed_writes) (rw (c, ok) refl)

-- A store with all the writes of a committed log that is read from a file.
recover-FindsAll :
    {D : Type 0} (txn : AgentTxnContext D) (a : ParsedCommitLogArtifact) (store : MemoryKvStore)
    (files : Map Text) (path : Text)
    → IsRead txn a
    → txn.status ≡ committed
    → parse_file files path ≡ some a
    → All (IsApplied store) txn.commit_log
    → FindsAll store
        (length txn.commit_log)
        (recover_committed_writes memory_kv_store files (path ∷ []) (store, fresh_result))
recover-FindsAll txn a store files path r c f w =
    let written : All (IsWritten memory_kv_store memory-IsVersioned store) a.entries =
      subst (All (IsWritten memory_kv_store memory-IsVersioned store)) (sym r.entries)
        (as_read-IsWritten store txn.commit_log w) in
    let s : IsSkipped memory_kv_store memory-IsVersioned a.entries store fresh_result
        (recover_entries memory_kv_store a.entries (store, fresh_result)) =
      recover_entries_skip memory_kv_store memory-IsVersioned a.entries store fresh_result written
        refl in
    let count : length a.entries ≡ length txn.commit_log =
      ap length r.entries ∙ length-map as_read txn.commit_log in
    subst (FindsAll store (length txn.commit_log))
      (sym (recover_one a store files path f (committed-is_committed_log txn a r c) s.success))
      (record {
        store = s.store;
        success = s.success;
        applied = s.applied;
        skipped = ground (arith, s.skipped, count);
      })

-- A commit of a well-formed buffer through the in-memory store has succeeded, and the file of its log
-- is written, with the status of a committed transaction, 64-bit versions and no empty value. Then
-- the recovery from that file on the store that the commit left reads the file and finds every
-- entry written: it succeeds, applies nothing, skips as many entries as the log has and leaves the
-- store as it is. The stream writes a `double` on one line.
pub commit_winner_recovered :
    {D : Type 0} (show : D → Text) (txn done : AgentTxnContext D) (world : World MemoryKvStore)
    (winner : BranchContext D) (failure : Failure) (o : CommitOutcome MemoryKvStore)
    (files : Map Text) (path : Text)
    → IsWellFormed winner.write_buffer
    → commit_winner memory_kv_store txn winner world failure ≡ some o
    → o.done ≡ true
    → done.status ≡ committed
    → done.commit_log ≡ o.commit_log
    → All IsOnLine (show done.metrics.commit_latency_us)
    → All IsReadable done.commit_log
    → find path files ≡ some (print_log show done)
    → FindsAll o.world.store
        (length o.commit_log)
        (recover_committed_writes memory_kv_store files (path ∷ []) (o.world.store, fresh_result))
unfolding parse_file
commit_winner_recovered show txn done world winner failure o files path w run ok status log line n
      held =
    let (a, read, r) = parse_log-print_log show done line n in
    let result : CommitsOrRefuses txn world o =
      let (p, found, either) = commit_winner_batch txn world winner failure w in
      subst (CommitsOrRefuses txn world) (some-injective (sym found ∙ run)) either in
    elim result [
      | inl c ↦
          subst
            (λ (log : List CommitLogEntry). FindsAll o.world.store (length log) (
              recover_committed_writes memory_kv_store files (path ∷ [])
                (o.world.store, fresh_result)))
            log
            (recover-FindsAll done a o.world.store files path r status (rw (held, parse_file) read)
              (subst (All (IsApplied o.world.store)) (sym log) c.applied))
      | inr (failed, _, _) ↦ absurd (cc (ok, failed))
    ]
