-- ===== src/Txn/Success.antt =====
-- When a commit through the in-memory store succeeds.
use data_agent_system.Prelude.{
  ℕ, ◌≡◌, refl, sym, ap, ◌∙◌, Text, Bool, true, false, List, [], ◌∷◌, Option, some, inl, inr, ◌⊎◌,
  All, Bool-cases, Option-cases, text_eq, text_eq_iff, ==_iff,
}
use data_agent_system.Prelude.Map.{Map, find, insert}
use data_agent_system.Intent.Types.{WriteIntent, IntentType}
use data_agent_system.Intent.Policy.{resolve_write, ResolveResult, uses_semantic_rebase}
use data_agent_system.Cache.Entry.{ObjectCacheEntry}
use data_agent_system.Cache.ReadSet.{ReadRecord}
use data_agent_system.Cache.WriteBuffer.{ordered_entries}
use data_agent_system.Storage.Memory.{
  MemoryKvStore, memory_kv_store, get, get_version, batch_put_if_version,
}
use data_agent_system.Storage.Batch.{Holds, checks_hold_iff}
use data_agent_system.Branch.Context.{BranchContext}
use data_agent_system.Fallback.Recovery.{World}
use data_agent_system.Txn.Context.{AgentTxnContext, Failure, has_failed}
use data_agent_system.Txn.Checks.{
  Attempt, went_on, Resolution, collect_checks, resolve_entries, resolve_entry, use_resolved,
  push_write, add_check, add_or_verify_check, verified, latest_intents, checks_of,
}
use data_agent_system.Txn.Commit.{
  CommitOutcome, commit_winner, commit_winner-commit_checked, commit_entries, commit_checked,
  commit_resolved, write_through, finish_commit,
}
use data_agent_system.Txn.BatchCommit.{checks_of-Holds}

module _ (s : MemoryKvStore) where
  -- Each version noted is the one in the store.
  abbrev AreCurrent : Map ℕ → Type 0
  AreCurrent seen = All (Holds s) (checks_of seen)

  insert-AreCurrent :
      (key : Text) (version : ℕ) (seen : Map ℕ)
      → get_version key s ≡ version
      → AreCurrent seen
      → AreCurrent (insert key version seen)
  unfolding checks_of insert
  insert-AreCurrent key version [] v h = (v, tt)
  insert-AreCurrent key version ((k, w) ∷ seen) v h = elim (Bool-cases (text_eq k key)) [
    | inl e ↦ rw e (ap (λ j. get_version j s) ((text_eq_iff k key).0 e) ∙ v, h.1)
    | inr e ↦ rw e (h.0, insert-AreCurrent key version seen v h.1)
  ]

  -- The read has seen the version in the store.
  abbrev pub IsCurrentRead : ReadRecord → Type 0
  IsCurrentRead read = get_version read.object_id s ≡ read.observed_version

  collect_checks_succeeds :
      (failure : Failure) (reads : List ReadRecord) (seen : Map ℕ)
      → All IsCurrentRead reads
      → AreCurrent seen
      → (seen' : Map ℕ) × (collect_checks failure reads seen ≡ went_on seen') × AreCurrent seen'
  unfolding collect_checks
  collect_checks_succeeds failure [] seen h c = (seen, refl, c)
  collect_checks_succeeds failure (read ∷ reads) seen h c =
      elim (Option-cases (find read.object_id seen)) [
        | inl e ↦
            let (seen', went, c') =
              collect_checks_succeeds failure reads
                (insert read.object_id read.observed_version seen) h.1
                (insert-AreCurrent read.object_id read.observed_version seen h.0 c) in
            (seen', rw (e, collect_checks) went, c')
        | inr (version, e) ↦
            let (seen', went, c') = collect_checks_succeeds failure reads seen h.1 c in
            let same : version ≡ read.observed_version =
              sym (checks_of-Holds seen s read.object_id version c e) ∙ h.0 in
            (seen', rw (e, collect_checks, (==_iff version read.observed_version).1 same) went, c')
      ]

  -- The checks made so far hold, and nothing has failed.
  record IsReady (r : Resolution) : Type 0 where
    seen : AreCurrent r.seen
    no_failure : has_failed r.failure ≡ false

  -- The last intent of the entry is known and resolves; if it writes, the commit rebases it or the
  -- store still has the version that the branch started from.
  pub record IsResolvable (entry : ObjectCacheEntry) (found : Option WriteIntent) : Type 0 where
    pub intent : WriteIntent
    pub is_known : found ≡ some intent
    pub resolves : (resolve_write entry intent (get entry.object_id s).value).success ≡ true
    pub is_fresh :
        (uses_semantic_rebase intent.intent_type ≡ true)
        ⊎ (get_version entry.object_id s ≡ entry.base_version)

  add_check-IsReady :
      (rebase : Bool) (key : Text) (current base : ℕ) (r : Resolution)
      → get_version key s ≡ current
      → (rebase ≡ true) ⊎ (get_version key s ≡ base)
      → IsReady r
      → IsReady (add_check rebase key current base r)
  unfolding add_check add_or_verify_check verified
  add_check-IsReady true key current base r c f i = record {
    seen = insert-AreCurrent key current r.seen c i.seen;
    no_failure = i.no_failure;
  }
  add_check-IsReady false key current base r c (inl e) i = cc e
  add_check-IsReady false key current base r c (inr e) i = elim (Option-cases (find key r.seen)) [
    | inl n ↦
        rw n
          (record { seen = insert-AreCurrent key base r.seen e i.seen; no_failure = i.no_failure })
    | inr (known, k) ↦
        let same : known ≡ base = sym (checks_of-Holds r.seen s key known i.seen k) ∙ e in
        rw (k, verified, (==_iff known base).1 same) i
  ]

  -- The code goes on, and is still ready.
  abbrev GoesOn : Attempt Resolution → Type 0
  GoesOn a = (r : Resolution) × (a ≡ went_on r) × IsReady r

  push_write-GoesOn :
      (key value : Text) (r : Resolution) → IsReady r → GoesOn (push_write key value r)
  unfolding push_write
  push_write-GoesOn key value r i =
      rw i.no_failure (_, refl, record { seen = i.seen; no_failure = i.no_failure })

  use_resolved-GoesOn :
      (entry : ObjectCacheEntry) (intent_type : IntentType) (resolved : ResolveResult)
      (r : Resolution)
      → resolved.success ≡ true
      → (uses_semantic_rebase intent_type ≡ true)
        ⊎ (get_version entry.object_id s ≡ entry.base_version)
      → IsReady r
      → GoesOn (use_resolved entry intent_type (get entry.object_id s) resolved r)
  unfolding use_resolved
  use_resolved-GoesOn entry intent_type resolved r ok f i =
      elim (Bool-cases resolved.should_write) [
        | inl w ↦
            rw (ok, w)
              (push_write-GoesOn entry.object_id resolved.value _ (
                add_check-IsReady (uses_semantic_rebase intent_type) entry.object_id
                  (get entry.object_id s).version entry.base_version r (unfold get_version in refl)
                  f i))
        | inr w ↦ rw (ok, w) (r, refl, i)
      ]

  resolve_entry-GoesOn :
      (entry : ObjectCacheEntry) (found : Option WriteIntent) (r : Resolution)
      → IsResolvable entry found
      → IsReady r
      → GoesOn (resolve_entry memory_kv_store s entry found r)
  unfolding resolve_entry memory_kv_store
  resolve_entry-GoesOn entry found r h i =
      rw (h.is_known, resolve_entry)
        (use_resolved-GoesOn entry h.intent.intent_type _ r h.resolves h.is_fresh i)

  resolve_entries-GoesOn :
      (latest : Map WriteIntent) (entries : List ObjectCacheEntry) (r : Resolution)
      → All (λ e. IsResolvable e (find e.object_id latest)) entries
      → IsReady r
      → GoesOn (resolve_entries memory_kv_store s latest entries r)
  unfolding resolve_entries
  resolve_entries-GoesOn latest [] r h i = (r, refl, i)
  resolve_entries-GoesOn latest (entry ∷ entries) r h i =
      let (r₁, e₁, i₁) = resolve_entry-GoesOn entry (find entry.object_id latest) r h.0 i in
      let (r₂, e₂, i₂) = resolve_entries-GoesOn latest entries r₁ h.1 i₁ in
      (r₂, rw (e₁, resolve_entries) e₂, i₂)

module _ {D : Type 0} (txn : AgentTxnContext D) (world : World MemoryKvStore)
    (winner : BranchContext D) where
  commit_resolved_succeeds :
      (r : Resolution)
      → All (Holds world.store) (checks_of r.seen)
      → (commit_resolved memory_kv_store txn world (went_on r)).done ≡ true
  unfolding commit_resolved write_through finish_commit memory_kv_store batch_put_if_version
  commit_resolved_succeeds r h = rw ((checks_hold_iff (checks_of r.seen) world.store).1 h)

  abbrev pub latest : Map WriteIntent
  latest = latest_intents winner.intent_log.intents []

  -- Through the in-memory store, a commit that starts with no failure recorded succeeds where no
  -- other client has interfered: each read saw the version in the store, the last intent of each
  -- entry of the buffer is known and resolves, and each entry whose intent is not rebased has the
  -- version that the branch started from.
  pub commit_winner_succeeds :
      (entries : List ObjectCacheEntry) (failure : Failure)
      → ordered_entries winner.write_buffer ≡ some entries
      → All (IsCurrentRead world.store) winner.read_set.entries
      → All (λ e. IsResolvable world.store e (find e.object_id latest)) entries
      → has_failed failure ≡ false
      → (o : CommitOutcome MemoryKvStore) × (commit_winner memory_kv_store txn winner world failure
          ≡ some o)
        × (o.done ≡ true)
  unfolding commit_checked commit_entries
  commit_winner_succeeds entries failure found reads resolvable f =
      let (seen, e, c) =
        collect_checks_succeeds world.store failure winner.read_set.entries [] reads
          (unfold checks_of in tt) in
      let (r, e', i) =
        resolve_entries-GoesOn world.store latest entries
          (record { seen = seen; writes = []; failure = failure }) resolvable
          (record { seen = c; no_failure = f }) in
      (
        commit_checked memory_kv_store txn winner entries world failure
            (collect_checks failure winner.read_set.entries []),
        commit_winner-commit_checked memory_kv_store txn winner entries world failure found,
        rw (e, commit_checked) (rw e' (commit_resolved_succeeds r i.seen)),
      )
