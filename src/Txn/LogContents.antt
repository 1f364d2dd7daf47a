-- ===== src/Txn/LogContents.antt =====
-- What a commit logs: the resolved value of each buffered object that is written.
use data_agent_system.Prelude.{
  ℕ, ◌≡◌, refl, sym, ap, ◌∙◌, Text, Bool, true, false, List, [], ◌∷◌, ◌++◌, Option, none, some, inl,
  inr, ◌⊎◌, arith, map, Bool-cases, Option-cases, append_assoc, append-nil, if◌then◌else◌, subst,
}
use data_agent_system.Prelude.Map.{Map, find}
use data_agent_system.Intent.Types.{WriteIntent, IntentType}
use data_agent_system.Intent.Policy.{resolve_write, ResolveResult}
use data_agent_system.Cache.Entry.{ObjectCacheEntry}
use data_agent_system.Storage.Interface.{VersionedValue, WriteOp, VersionedKvStore}
use data_agent_system.Cache.WriteBuffer.{ordered_entries, empty}
use data_agent_system.Cache.WriteBuffer.Writes.{upsert_all, placed, ordered_entries-upsert_all}
use data_agent_system.Branch.Context.{BranchContext}
use data_agent_system.Fallback.Recovery.{World}
use data_agent_system.Txn.Context.{AgentTxnContext, CommitLogEntry, Failure, has_failed}
use data_agent_system.Txn.Commit.{
  CommitOutcome, Written, log_entry, finish_commit, refuse, commit_resolved, commit_checked,
  commit_entries, commit_winner, commit_winner-commit_checked,
}
use data_agent_system.Txn.Checks.{
  collect_checks, Attempt, refused, went_on, Resolution, resolve_entry, resolve_entries,
  use_resolved, push_write, add_check, add_or_verify_check, verified, latest_intents,
}
use data_agent_system.Txn.LastIntent.{last_intent, find-latest_intents_empty}

-- The writes of one entry: none where the intent writes nothing, and no result where it does not
-- resolve.
abbrev pub writes_of : Text → ResolveResult → Option (List WriteOp)
writes_of key r =
    if r.success
    then if r.should_write then some (record { key = key; value = r.value } ∷ []) else some []
    else none

abbrev join : Option (List WriteOp) → Option (List WriteOp) → Option (List WriteOp)
join (some ws) (some rest) = some (ws ++ rest)
join _ _ = none

module _ {S : Type 0} (kv : VersionedKvStore S) (store : S) where
  abbrev pub entry_writes : ObjectCacheEntry → Option WriteIntent → Option (List WriteOp)
  entry_writes entry none = none
  entry_writes entry (some intent) =
      writes_of entry.object_id (resolve_write entry intent (kv.get entry.object_id store).value)

  -- The writes of a buffer, by the intent of each object and the stored values.
  abbrev pub expected_writes :
      (Text → Option WriteIntent) → List ObjectCacheEntry → Option (List WriteOp)
  expected_writes intent_of [] = some []
  expected_writes intent_of (entry ∷ entries) =
      join (entry_writes entry (intent_of entry.object_id)) (expected_writes intent_of entries)

  expected_writes-same :
      (f g : Text → Option WriteIntent)
      → ((object_id : Text) → f object_id ≡ g object_id)
      → (entries : List ObjectCacheEntry) → expected_writes f entries ≡ expected_writes g entries
  expected_writes-same f g h [] = refl
  expected_writes-same f g h (entry ∷ entries) =
      rw (h entry.object_id, expected_writes-same f g h entries) refl

-- Where the code goes on, it has added just these writes.
abbrev Adds : Option (List WriteOp) → Resolution → Attempt Resolution → Type 0
Adds ws r (refused failure) = Unit
Adds ws r (went_on r') = (new : List WriteOp) × (ws ≡ some new) × (r'.writes ≡ r.writes ++ new)

add_check_writes :
    (rebase : Bool) (object_id : Text) (current base : ℕ) (r : Resolution)
    → (add_check rebase object_id current base r).writes ≡ r.writes
unfolding add_check add_or_verify_check verified
add_check_writes true object_id current base r = refl
add_check_writes false object_id current base r = elim (Option-cases (find object_id r.seen)) [
  | inl e ↦ rw e refl
  | inr (version, e) ↦ rw (e, verified) (ground arith)
]

push_write-Adds :
    (key value : Text) (r r' : Resolution)
    → r'.writes ≡ r.writes
    → Adds (some (record { key = key; value = value } ∷ [])) r (push_write key value r')
unfolding push_write
push_write-Adds key value r r' same = elim (Bool-cases (has_failed r'.failure)) [
  | inl e ↦ rw e tt
  | inr e ↦ rw e (_, refl, rw same refl)
]

use_resolved-Adds :
    (entry : ObjectCacheEntry) (intent_type : IntentType) (current : VersionedValue)
    (resolved : ResolveResult) (r : Resolution)
    → Adds
        (writes_of entry.object_id resolved)
        r
        (use_resolved entry intent_type current resolved r)
unfolding use_resolved
use_resolved-Adds entry intent_type current resolved r = elim (Bool-cases resolved.success) [
  | inl e ↦ elim (Bool-cases resolved.should_write) [
    | inl w ↦
        rw (e, w)
          (push_write-Adds entry.object_id resolved.value r _
            (add_check_writes _ entry.object_id current.version entry.base_version r))
    | inr w ↦ rw (e, w) ([], refl, sym (append-nil r.writes))
  ]
  | inr e ↦ rw e tt
]

module _ {S : Type 0} (kv : VersionedKvStore S) (store : S) where
  resolve_entry-Adds :
      (entry : ObjectCacheEntry) (intent : Option WriteIntent) (r : Resolution)
      → Adds (entry_writes kv store entry intent) r (resolve_entry kv store entry intent r)
  unfolding resolve_entry
  resolve_entry-Adds entry none r = tt
  resolve_entry-Adds entry (some intent) r =
      use_resolved-Adds entry intent.intent_type (kv.get entry.object_id store) _ r

  Adds-join :
      (ws rest : Option (List WriteOp)) (r r' : Resolution) (a : Attempt Resolution)
      → Adds ws r (went_on r')
      → Adds rest r' a
      → Adds (join ws rest) r a
  Adds-join ws rest r r' (refused failure) h k = tt
  Adds-join ws rest r r' (went_on r'') (new, e, w) (more, f, v) =
      (new ++ more, rw (e, f) refl, v ∙ rw w (append_assoc r.writes new more))

  pub resolve_entries-Adds :
      (latest : Map WriteIntent) (entries : List ObjectCacheEntry) (r : Resolution)
      → Adds
          (expected_writes kv store (λ k. find k latest) entries)
          r
          (resolve_entries kv store latest entries r)
  unfolding resolve_entries
  resolve_entries-Adds latest [] r = ([], refl, sym (append-nil r.writes))
  resolve_entries-Adds latest (entry ∷ entries) r =
      elim (resolve_entry kv store entry (find entry.object_id latest) r)
          as (λ a.
            Adds (entry_writes kv store entry (find entry.object_id latest)) r a
            → Adds (expected_writes kv store (λ k. find k latest) (entry ∷ entries)) r (elim a [
              | refused failure ↦ refused failure
              | went_on r' ↦ resolve_entries kv store latest entries r'
            ])) [
              | refused failure ↦ λ h. tt
              | went_on r' ↦ λ h. Adds-join _ _ r r' _ h (resolve_entries-Adds latest entries r')
            ]
        (resolve_entry-Adds entry (find entry.object_id latest) r)

abbrev pub as_write : CommitLogEntry → WriteOp
as_write e = record { key = e.key; value = e.value }

as_write-log_entry :
    (seen : Map ℕ) (writes : List WriteOp) → map as_write (map (log_entry seen) writes) ≡ writes
unfolding log_entry
as_write-log_entry seen [] = refl
as_write-log_entry seen (w ∷ writes) = ap (◌∷◌ w) (as_write-log_entry seen writes)

module _ {S D : Type 0} (kv : VersionedKvStore S) (txn : AgentTxnContext D) (world : World S) where
  -- The commit failed, or it logged the writes `ws` and no others.
  abbrev pub LogsWrites : Option (List WriteOp) → CommitOutcome S → Type 0
  LogsWrites ws o = (o.done ≡ false) ⊎ (ws ≡ some (map as_write o.commit_log))

  finish_commit-LogsWrites :
      (r : Resolution) (o : Written S) → LogsWrites (some r.writes) (finish_commit kv txn r o)
  unfolding finish_commit
  finish_commit-LogsWrites r o = elim (Bool-cases o.done) [
    | inl e ↦ rw e (inr (ap some (sym (as_write-log_entry r.seen r.writes))))
    | inr e ↦ rw e (inl refl)
  ]

  commit_resolved-LogsWrites :
      (ws : Option (List WriteOp)) (seen : Map ℕ) (failure : Failure) (a : Attempt Resolution)
      → Adds ws (record { seen = seen; writes = []; failure = failure }) a
      → LogsWrites ws (commit_resolved kv txn world a)
  unfolding commit_resolved refuse
  commit_resolved-LogsWrites ws seen failure (refused failure') h = inl refl
  commit_resolved-LogsWrites ws seen failure (went_on r) (new, e, w) =
      rw e (rw (← w) (finish_commit-LogsWrites r _))

  module _ (winner : BranchContext D) where
    commit_checked-LogsWrites :
        (entries : List ObjectCacheEntry) (failure : Failure) (a : Attempt (Map ℕ))
        → LogsWrites
            (expected_writes kv world.store (last_intent winner.intent_log.intents) entries)
            (commit_checked kv txn winner entries world failure a)
    unfolding commit_checked commit_entries refuse
    commit_checked-LogsWrites entries failure (refused failure') = inl refl
    commit_checked-LogsWrites entries failure (went_on seen) =
        let latest = latest_intents winner.intent_log.intents [] in
        subst
          (λ ws. LogsWrites ws (
            commit_resolved kv txn world (
              resolve_entries kv world.store latest entries
                (record { seen = seen; writes = []; failure = failure }))))
          (expected_writes-same kv world.store (λ k. find k latest)
            (last_intent winner.intent_log.intents)
            (find-latest_intents_empty winner.intent_log.intents) entries)
          (commit_resolved-LogsWrites _ seen failure _
            (resolve_entries-Adds kv world.store latest entries _))

    -- Through any store, a commit returns, and if it succeeds, it has logged just the writes that the
    -- buffered objects resolve to, each by the last intent for it in the intent log and the value in
    -- the store at the start. The buffer is that of any sequence of writes; the log has each object
    -- once, with the last entry for it, in the order in which the objects were first written.
    pub commit_winner_log :
        (entries : List ObjectCacheEntry) (failure : Failure)
        → winner.write_buffer ≡ upsert_all entries empty
        → (o : CommitOutcome S) × (commit_winner kv txn winner world failure ≡ some o)
          × LogsWrites
              (expected_writes kv world.store
                (last_intent winner.intent_log.intents)
                (placed entries []))
              o
    commit_winner_log entries failure b =
        let found : ordered_entries winner.write_buffer ≡ some (placed entries []) =
          ap ordered_entries b ∙ ordered_entries-upsert_all entries in
        (
          commit_checked kv txn winner (placed entries []) world failure
              (collect_checks failure winner.read_set.entries []),
          commit_winner-commit_checked kv txn winner (placed entries []) world failure found,
          commit_checked-LogsWrites (placed entries []) failure _,
        )
