-- ===== src/Tests/Commits.antt =====
-- Commits at concrete inputs.
use data_agent_system.Prelude.{
  ap, inl, codes, ℕ, ◌↔◌, ◌≡◌, refl, true, false, some, [], ◌∷◌, is_some, All, text_eq,
}
use data_agent_system.Prelude.Map.{find, insert}
use data_agent_system.Storage.Memory.{
  MemoryKvStore, memory_kv_store, get, get_version, batch_put_if_version,
}
use data_agent_system.Storage.NonBatch.{non_batch_memory_kv_store}
use data_agent_system.Storage.Laws.{non_batch-IsVersioned}
use data_agent_system.Storage.Batch.{DistinctKeys, find_write}
use data_agent_system.Txn.Commit.{CommitOutcome, commit_winner}
use data_agent_system.Txn.Plain.{commit_without_batch, expected_versions}
use data_agent_system.Txn.PlainCommit.{IsAtomic, commit_without_batch-IsAtomic}
use data_agent_system.Txn.BatchCommit.{CommitsOrRefuses, commit_winner_batch}
use data_agent_system.Txn.FallbackAtomic.{CommitsOrUndoes, commit_winner_plain}
use data_agent_system.Cache.WriteBuffer.{ordered_entries, upsert}
use data_agent_system.Intent.Policy.{uses_semantic_rebase, resolve_write}
use data_agent_system.Intent.Rebase.{resolve_write-append}
use data_agent_system.Txn.Success.{IsCurrentRead, IsResolvable, latest, commit_winner_succeeds}
use data_agent_system.Txn.Checks.{latest_intents, collect_checks, resolve_entries, checks_of}
use data_agent_system.Txn.LastIntent.{last_intent}
use data_agent_system.Txn.LogContents.{LogsWrites, expected_writes, commit_winner_log}
use data_agent_system.Txn.Validation.{validate_winner}
use data_agent_system.Txn.Freshness.{IsFresh, validate_winner_iff}
use data_agent_system.Txn.Manager.{TxnOutcome, select_winner_and_commit}
use data_agent_system.Txn.Attempts.{CommitsOrAborts, select_winner_and_commit_ends}
use data_agent_system.Prelude.{arith, Text, Option, none, length}
use data_agent_system.Prelude.Map.{Map}
use data_agent_system.Intent.Number.{print_ℕ}
use data_agent_system.Log.Artifact.{print_log}
use data_agent_system.Log.Lines.Fields.{IsOnLine}
use data_agent_system.Log.RoundTrip.{IsReadable}
use data_agent_system.Log.Recovery.{recover_committed_writes, fresh_result}
use data_agent_system.Txn.Context.{AgentTxnContext, committed}
use data_agent_system.Cache.WriteBuffer.Writes.{placed}
use data_agent_system.Txn.Recovered.{FindsAll, commit_winner_recovered}
use data_agent_system.Tests.Data.{
  current_reader, grown, append_intent, reader, score, branch, check, note_write, store, txn, world,
  no_failure, note_buffer_ok,
}

commit_winner_batch_example :
    (o : CommitOutcome MemoryKvStore) × (commit_winner memory_kv_store txn branch world no_failure
      ≡ some o)
    × CommitsOrRefuses txn world o
commit_winner_batch_example = commit_winner_batch txn world branch no_failure note_buffer_ok

non_batch_has_no_batch : non_batch_memory_kv_store.supports_atomic_batch_conditional_write ≡ false
unfolding non_batch_memory_kv_store
non_batch_has_no_batch = refl

commit_winner_plain_example :
    (o : CommitOutcome MemoryKvStore) × (commit_winner non_batch_memory_kv_store txn branch world
        no_failure
      ≡ some o)
    × CommitsOrUndoes non_batch_memory_kv_store non_batch-IsVersioned non_batch_has_no_batch txn
        refl world o
commit_winner_plain_example =
    commit_winner_plain non_batch_memory_kv_store non_batch-IsVersioned non_batch_has_no_batch txn
      refl world branch no_failure note_buffer_ok

note_write_alone : DistinctKeys (note_write ∷ [])
unfolding find_write
note_write_alone = (refl, tt)

note_write_expected :
    All (λ w. is_some (find w.key (expected_versions (check ∷ []) [])) ≡ true) (note_write ∷ [])
unfolding expected_versions find insert text_eq
note_write_expected = (refl, tt)

commit_without_batch-IsAtomic_example :
    IsAtomic non_batch_memory_kv_store non_batch-IsVersioned store
      (note_write ∷ [])
      store
      no_failure
      (commit_without_batch non_batch_memory_kv_store
        (check ∷ [])
        (note_write ∷ [])
        store
        no_failure)
commit_without_batch-IsAtomic_example =
    commit_without_batch-IsAtomic non_batch_memory_kv_store non_batch-IsVersioned (check ∷ [])
      (note_write ∷ []) store no_failure note_write_alone note_write_expected

commit_winner_log_example :
    (o : CommitOutcome MemoryKvStore) × (commit_winner memory_kv_store txn branch world no_failure
      ≡ some o)
    × LogsWrites memory_kv_store txn world
        (expected_writes memory_kv_store world.store
          (last_intent branch.intent_log.intents)
          (placed (grown ∷ []) []))
        o
commit_winner_log_example =
    commit_winner_log memory_kv_store txn world branch (grown ∷ []) no_failure refl

validate_winner_iff_example :
    ((validate_winner memory_kv_store reader store).success ≡ true)
    ↔ All (IsFresh memory_kv_store store reader.intent_log.intents) reader.read_set.entries
validate_winner_iff_example = validate_winner_iff memory_kv_store store reader

select_winner_and_commit_ends_example :
    (o : TxnOutcome ℕ MemoryKvStore) × (select_winner_and_commit score memory_kv_store txn world
      ≡ some o)
    × CommitsOrAborts world o
select_winner_and_commit_ends_example =
    select_winner_and_commit_ends world score branch [] txn refl (note_buffer_ok, tt)

branch_entries : ordered_entries current_reader.write_buffer ≡ some (grown ∷ [])
unfolding ordered_entries upsert find insert text_eq
branch_entries = refl

branch_reads : All (IsCurrentRead store) current_reader.read_set.entries
unfolding get_version get find text_eq
branch_reads = (refl, (refl, tt))

branch_resolves :
    All
      (λ e. IsResolvable store e (find e.object_id (latest txn world current_reader)))
      (grown ∷ [])
unfolding latest_intents find insert text_eq uses_semantic_rebase
branch_resolves = (
  record {
    intent = append_intent;
    is_known = refl;
    resolves =
        ap (λ r. r.success) (resolve_write-append grown append_intent _ (codes "cd") refl refl);
    is_fresh = inl refl;
  },
  tt,
)

commit_winner_succeeds_example :
    (o : CommitOutcome MemoryKvStore) × (commit_winner memory_kv_store txn current_reader world
        no_failure
      ≡ some o)
    × (o.done ≡ true)
commit_winner_succeeds_example =
    commit_winner_succeeds txn world current_reader (grown ∷ []) no_failure branch_entries
      branch_reads branch_resolves refl

-- A value that is there.
abbrev IsThere : {A : Type 0} → Option A → Type 0
IsThere none = ⊥
IsThere (some a) = Unit

the : {A : Type 0} → (o : Option A) → IsThere o → A
the none h = absurd h
the (some a) h = a

some-the : {A : Type 0} (o : Option A) (h : IsThere o) → o ≡ some (the o h)
unfolding the
some-the none h = absurd h
some-the (some a) h = refl

abbrev ran : Option (CommitOutcome MemoryKvStore)
ran = commit_winner memory_kv_store txn current_reader world no_failure

ran-IsThere : IsThere ran
unfolding commit_winner collect_checks find insert text_eq ordered_entries upsert
ran-IsThere = tt

abbrev outcome : CommitOutcome MemoryKvStore
outcome = the ran ran-IsThere

outcome_facts : (outcome.done ≡ true) × All IsReadable outcome.commit_log
unfolding commit_winner collect_checks find insert text_eq ordered_entries upsert the
    resolve_entries latest_intents resolve_write uses_semantic_rebase memory_kv_store
    batch_put_if_version checks_of get
outcome_facts = (refl, ((omega arith, refl), tt))

-- The transaction as its log is written.
abbrev closed : AgentTxnContext ℕ
closed = record txn { status = committed; commit_log = outcome.commit_log }

abbrev log_files : Map Text
log_files = (codes "log", print_log print_ℕ closed) ∷ []

log_held : find (codes "log") log_files ≡ some (print_log print_ℕ closed)
unfolding find text_eq
log_held = refl

latency-IsOnLine : All IsOnLine (print_ℕ closed.metrics.commit_latency_us)
unfolding print_ℕ
latency-IsOnLine = ground arith

commit_winner_recovered_example : FindsAll outcome.world.store (length outcome.commit_log) (
    recover_committed_writes memory_kv_store log_files
      (codes "log" ∷ [])
      (outcome.world.store, fresh_result))
commit_winner_recovered_example =
    commit_winner_recovered print_ℕ txn closed world current_reader no_failure outcome log_files
      (codes "log") note_buffer_ok (some-the ran ran-IsThere) outcome_facts.0 refl refl
      latency-IsOnLine outcome_facts.1 log_held
