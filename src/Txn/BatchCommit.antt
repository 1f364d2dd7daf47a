-- ===== src/Txn/BatchCommit.antt =====
-- A commit through a store with the atomic batch.
use data_agent_system.Prelude.{
  ℕ, Text, true, false, List, [], ◌∷◌, some, ◌≡◌, ◌⊎◌, refl, sym, ap, ◌∙◌, inl, inr, arith,
  text_eq_iff, is_some, map, All, Option-cases, subst,
}
use data_agent_system.Prelude.Map.{Map, find}
use data_agent_system.Cache.Entry.{ObjectCacheEntry}
use data_agent_system.Cache.WriteBuffer.Undo.{Distinct}
use data_agent_system.Cache.WriteBuffer.Invariant.{IsWellFormed, ordered_entries-Lists}
use data_agent_system.Storage.Interface.{WriteOp}
use data_agent_system.Storage.Contract.{written}
use data_agent_system.Storage.Memory.{MemoryKvStore, memory_kv_store, get, get_version}
use data_agent_system.Storage.Batch.{find_write, Holds, batch_put_if_version_atomic, rewritten}
use data_agent_system.Branch.Context.{BranchContext}
use data_agent_system.Fallback.Recovery.{World}
use data_agent_system.Txn.Context.{AgentTxnContext, CommitLogEntry, Failure}
use data_agent_system.Txn.Checks.{collect_checks, Attempt, refused, went_on, Resolution, checks_of}
use data_agent_system.Txn.Resolve.{IsPending, resolve_entries-IsPending, start_IsPending, ids_of}
use data_agent_system.Txn.Logged.{NotLogged, find_write-NotLogged, All-find_write}
use data_agent_system.Txn.Commit.{
  CommitOutcome, commit_winner, commit_winner-commit_checked, commit_checked, commit_resolved,
  log_entry,
}

-- The test by which recovery finds a committed write in the store (`RecoverCommittedWrites`).
abbrev pub IsApplied : MemoryKvStore → CommitLogEntry → Type 0
IsApplied s entry = get entry.key s ≡ written entry.value entry.expected_version

pub checks_of-Holds :
    (seen : Map ℕ) (s : MemoryKvStore) (k : Text) (version : ℕ)
    → All (Holds s) (checks_of seen)
    → find k seen ≡ some version
    → get_version k s ≡ version
unfolding checks_of find
checks_of-Holds [] s k version h e = cc
checks_of-Holds ((j, v) ∷ seen) s k version h e =
    ground (arith, checks_of-Holds seen s k version h.1, text_eq_iff j k)

module _ (seen : Map ℕ) (s s' : MemoryKvStore) (all : List WriteOp)
    (known : (k : Text) → is_some (find_write k all) ≡ true → is_some (find k seen) ≡ true)
    (holds : All (Holds s) (checks_of seen))
    (new : (j : Text) → get j s' ≡ rewritten (find_write j all) (get j s)) where
  log_entry-IsApplied :
      (w : WriteOp) → find_write w.key all ≡ some w.value → IsApplied s' (log_entry seen w)
  unfolding log_entry
  log_entry-IsApplied w h = elim (Option-cases (find w.key seen)) [
    | inl e ↦ cc (known w.key (ap is_some h), e)
    | inr (version, e) ↦
        let old : (get w.key s).version ≡ version =
          unfold get_version in checks_of-Holds seen s w.key version holds e in
        rw (e, log_entry) (new w.key ∙ rw h (ap (written w.value) old))
  ]

  log-IsApplied :
      (writes : List WriteOp)
      → All (λ w. find_write w.key all ≡ some w.value) writes
      → All (IsApplied s') (map (log_entry seen) writes)
  log-IsApplied [] h = tt
  log-IsApplied (w ∷ writes) h = (log_entry-IsApplied w h.0, log-IsApplied writes h.1)

-- A commit writes what it logs and no more, or fails and changes nothing.
pub record IsCommit (s : MemoryKvStore) (o : CommitOutcome MemoryKvStore) : Type 0 where
  pub done : o.done ≡ true
  pub applied : All (IsApplied o.world.store) o.commit_log
  pub others : (j : Text) → NotLogged j o.commit_log → get j o.world.store ≡ get j s

abbrev pub IsRefusal :
    {D : Type 0} → AgentTxnContext D → World MemoryKvStore → CommitOutcome MemoryKvStore → Type 0
IsRefusal txn world o = (o.done ≡ false) × (o.world ≡ world) × (o.commit_log ≡ txn.commit_log)

module _ {D : Type 0} (txn : AgentTxnContext D) (world : World MemoryKvStore) where
  commit_resolved-IsCommit :
      (r : Resolution)
      → IsPending [] r
      → IsCommit world.store (commit_resolved memory_kv_store txn world (went_on r))
        ⊎ IsRefusal txn world (commit_resolved memory_kv_store txn world (went_on r))
  unfolding commit_resolved memory_kv_store
  commit_resolved-IsCommit r p =
      elim (batch_put_if_version_atomic (checks_of r.seen) r.writes world.store p.distinct) [
        | inl (holds, ok, new) ↦ inl (
            rw ok (record {
              done = refl;
              applied =
                  log-IsApplied r.seen world.store _ r.writes p.checked holds new r.writes
                    (All-find_write r.writes r.writes p.distinct (λ k v h. h));
              others = λ j h. new j ∙ rw (find_write-NotLogged r.seen j r.writes h);
            }))
        | inr (fails, bad, same) ↦ inr (rw (bad, same) (refl, refl, refl))
      ]

  abbrev pub CommitsOrRefuses : CommitOutcome MemoryKvStore → Type 0
  CommitsOrRefuses o = IsCommit world.store o ⊎ IsRefusal txn world o

  resolved_attempt :
      (a : Attempt Resolution)
      → ((r : Resolution) → a ≡ went_on r → IsPending [] r)
      → CommitsOrRefuses (commit_resolved memory_kv_store txn world a)
  resolved_attempt (refused failure) p = unfold commit_resolved in inr (refl, refl, refl)
  resolved_attempt (went_on r) p = commit_resolved-IsCommit r (p r refl)

  module _ (winner : BranchContext D) where
    checked_commit :
        (entries : List ObjectCacheEntry) (failure : Failure) (a : Attempt (Map ℕ))
        → Distinct (ids_of entries)
        → CommitsOrRefuses (commit_checked memory_kv_store txn winner entries world failure a)
    unfolding commit_checked
    checked_commit entries failure (refused failure') d = inr (refl, refl, refl)
    checked_commit entries failure (went_on seen) d = resolved_attempt _ (λ r.
        resolve_entries-IsPending memory_kv_store world.store _ entries _ r d
          (start_IsPending seen failure (ids_of entries)))

    -- With a well-formed buffer the commit of a winner through the in-memory store always returns.
    -- Either it succeeds: every entry of its log is in the store with the next version after the
    -- expected one, and no other key has changed; or it fails and leaves the world and the log as
    -- they were.
    pub commit_winner_batch :
        (failure : Failure)
        → IsWellFormed winner.write_buffer
        → (o : CommitOutcome MemoryKvStore) × (commit_winner memory_kv_store txn winner world
              failure
            ≡ some o)
          × CommitsOrRefuses o
    commit_winner_batch failure w =
        let (entries, found, ids, distinct) = ordered_entries-Lists winner.write_buffer w in
        (
          commit_checked memory_kv_store txn winner entries world failure
              (collect_checks failure winner.read_set.entries []),
          commit_winner-commit_checked memory_kv_store txn winner entries world failure found,
          checked_commit entries failure _ (subst Distinct (sym ids) distinct),
        )
