-- ===== src/Txn/FallbackAtomic.antt =====
-- `CommitWinner` through a store without the batch, with no artifact path.
use data_agent_system.Prelude.{
  ℕ, Text, Bool, true, false, List, [], ◌∷◌, some, ◌≡◌, ◌⊎◌, ◌||◌, refl, sym, ap, ◌∙◌, inl, inr,
  arith, is_some, map, All, subst, is_empty, All-map,
}
use data_agent_system.Prelude.Map.{Map, find, find-insert, insert}
use data_agent_system.Cache.Entry.{ObjectCacheEntry}
use data_agent_system.Cache.WriteBuffer.Undo.{Distinct}
use data_agent_system.Cache.WriteBuffer.Invariant.{IsWellFormed, ordered_entries-Lists}
use data_agent_system.Storage.Interface.{WriteOp, VersionedKvStore}
use data_agent_system.Storage.Contract.{IsVersioned}
use data_agent_system.Storage.Batch.{find_write, DistinctKeys, rewritten}
use data_agent_system.Branch.Context.{BranchContext}
use data_agent_system.Fallback.Recovery.{World}
use data_agent_system.Txn.Context.{AgentTxnContext, CommitLogEntry, Failure}
use data_agent_system.Txn.Checks.{collect_checks, Attempt, refused, went_on, Resolution, checks_of}
use data_agent_system.Txn.Resolve.{IsPending, resolve_entries-IsPending, start_IsPending, ids_of}
use data_agent_system.Txn.Plain.{expected_versions, commit_without_batch}
use data_agent_system.Txn.PlainCommit.{SameData, commit_without_batch-IsAtomic}
use data_agent_system.Txn.Logged.{NotLogged, find_write-NotLogged, All-find_write}
use data_agent_system.Txn.Commit.{
  CommitOutcome, commit_winner, commit_winner-commit_checked, commit_checked, commit_resolved,
  log_entry, refuse,
}

expected_versions-find :
    (seen : Map ℕ) (m : Map ℕ) (k : Text)
    → is_some (find k (expected_versions (checks_of seen) m))
      ≡ (is_some (find k seen) || is_some (find k m))
unfolding expected_versions checks_of find
expected_versions-find [] m k = refl
expected_versions-find ((j, v) ∷ seen) m k =
    rw (expected_versions-find seen (insert j v m) k) (rw (find-insert j k v m) (ground arith))

All-checked :
    (seen : Map ℕ) (writes : List WriteOp)
    → DistinctKeys writes
    → ((k : Text) → is_some (find_write k writes) ≡ true → is_some (find k seen) ≡ true)
    → All (λ w. is_some (find w.key (expected_versions (checks_of seen) [])) ≡ true) writes
unfolding find
All-checked seen writes d known =
    All-map
      (λ w h.
        expected_versions-find seen [] w.key
        ∙ ap (λ (b : Bool). b || false) (known w.key (ap is_some h)))
      writes (All-find_write writes writes d (λ k v h. h))

-- The commit logs what it wrote and changes no other key, or it gives every key its data back.
pub record IsPlainCommit {S : Type 0} (kv : VersionedKvStore S) (s : S) (o : CommitOutcome S)
    : Type 0 where
  pub done : o.done ≡ true
  pub applied :
      All
        (λ e.
          ((kv.get e.key o.world.store).value ≡ e.value)
          × ((kv.get e.key o.world.store).exists ≡ true))
        o.commit_log
  pub others : (j : Text) → NotLogged j o.commit_log → kv.get j o.world.store ≡ kv.get j s

pub record IsUndone {S : Type 0} (kv : VersionedKvStore S) (s : S) (log : List CommitLogEntry)
    (o : CommitOutcome S) : Type 0 where
  pub done : o.done ≡ false
  pub restored : (j : Text) → SameData (kv.get j o.world.store) (kv.get j s)
  pub commit_log : o.commit_log ≡ log

module _ {S D : Type 0} (kv : VersionedKvStore S) (laws : IsVersioned kv)
    (no_batch : kv.supports_atomic_batch_conditional_write ≡ false) (txn : AgentTxnContext D)
    (no_artifact : is_empty txn.fallback_commit.artifact_path ≡ true) (world : World S) where
  abbrev pub CommitsOrUndoes : CommitOutcome S → Type 0
  CommitsOrUndoes o = IsPlainCommit kv world.store o ⊎ IsUndone kv world.store txn.commit_log o

  refused_IsUndone : (failure : Failure) → CommitsOrUndoes (refuse kv txn world failure)
  unfolding refuse
  refused_IsUndone failure = inr (record {
    done = refl;
    restored = λ j. record { value = refl; exists = refl };
    commit_log = refl;
  })

  logged_applied :
      (seen : Map ℕ) (all : List WriteOp) (s' : S)
      → ((j : Text) → kv.get j s' ≡ rewritten (find_write j all) (kv.get j world.store))
      → (writes : List WriteOp) → All (λ w. find_write w.key all ≡ some w.value) writes
      → All
          (λ e. ((kv.get e.key s').value ≡ e.value) × ((kv.get e.key s').exists ≡ true))
          (map (log_entry seen) writes)
  unfolding log_entry
  logged_applied seen all s' new [] h = tt
  logged_applied seen all s' new (w ∷ writes) h =
      (rw (new w.key, h.0) (refl, refl), logged_applied seen all s' new writes h.1)

  resolved_commit :
      (r : Resolution) → IsPending [] r → CommitsOrUndoes (commit_resolved kv txn world (went_on r))
  unfolding commit_resolved commit_without_batch
  resolved_commit r p =
      elim (commit_without_batch-IsAtomic kv laws (checks_of r.seen) r.writes world.store r.failure
        p.distinct (All-checked r.seen r.writes p.distinct p.checked)) [
          | inl c ↦
              rw (no_batch, no_artifact, c.done)
                (inl (record {
                  done = refl;
                  applied =
                      logged_applied r.seen r.writes _ c.store r.writes
                        (All-find_write r.writes r.writes p.distinct (λ k v h. h));
                  others = λ j h. c.store j ∙ rw (find_write-NotLogged r.seen j r.writes h);
                }))
          | inr (failed, restored) ↦
              rw (no_batch, no_artifact, failed)
                (inr (record { done = refl; restored = restored; commit_log = refl }))
        ]

  resolved_attempt :
      (a : Attempt Resolution)
      → ((r : Resolution) → a ≡ went_on r → IsPending [] r)
      → CommitsOrUndoes (commit_resolved kv txn world a)
  resolved_attempt (refused failure) p = unfold commit_resolved in refused_IsUndone failure
  resolved_attempt (went_on r) p = resolved_commit r (p r refl)

  module _ (winner : BranchContext D) where
    checked_commit :
        (entries : List ObjectCacheEntry) (failure : Failure) (a : Attempt (Map ℕ))
        → Distinct (ids_of entries)
        → CommitsOrUndoes (commit_checked kv txn winner entries world failure a)
    unfolding commit_checked
    checked_commit entries failure (refused failure') d = refused_IsUndone failure'
    checked_commit entries failure (went_on seen) d = resolved_attempt _ (λ r.
        resolve_entries-IsPending kv world.store _ entries _ r d
          (start_IsPending seen failure (ids_of entries)))

    -- On a store that keeps the contract and has no batch, with no artifact path and a well-formed
    -- buffer, the commit of a winner always returns. Either it succeeds, every entry of its log is
    -- in the store and no other key has changed; or it fails, the log is as it was and every key
    -- has the value and the existence that it had.
    pub commit_winner_plain :
        (failure : Failure)
        → IsWellFormed winner.write_buffer
        → (o : CommitOutcome S) × (commit_winner kv txn winner world failure ≡ some o)
          × CommitsOrUndoes o
    commit_winner_plain failure w =
        let (entries, found, ids, distinct) = ordered_entries-Lists winner.write_buffer w in
        (
          commit_checked kv txn winner entries world failure
              (collect_checks failure winner.read_set.entries []),
          commit_winner-commit_checked kv txn winner entries world failure found,
          checked_commit entries failure _ (subst Distinct (sym ids) distinct),
        )
