-- ===== src/Txn/Plain.antt =====
-- `CommitWinnerWithoutBatch` and `RollbackAppliedWrites` of agent_txn/commit_manager.h, without an
-- artifact: one conditional write after another, undone where one fails.
use data_agent_system.Prelude.{
  ℕ, Text, Bool, true, false, List, [], ◌∷◌, ◌++◌, none, some, ◌==◌, codes, next_version,
  if◌then◌else◌,
}
use data_agent_system.Prelude.Map.{Map, find, insert}
use data_agent_system.Storage.Interface.{VersionedValue, VersionCheck, WriteOp, VersionedKvStore}
use data_agent_system.Txn.Context.{Failure, set_failure, set_failure_if_unset}

pub record AppliedWrite : Type 0 where
  pub key : Text
  pub previous_value : Text
  pub previous_version : ℕ
  pub previous_exists : Bool

pub record PlainOutcome (S : Type 0) : Type 0 where
  pub done : Bool
  pub store : S
  pub failure : Failure

abbrev pub applied_of : Text → VersionedValue → AppliedWrite
applied_of key current = record {
  key = key;
  previous_value = current.value;
  previous_version = current.version;
  previous_exists = current.exists;
}

-- `expected_versions` of a list of checks.
unfoldable pub expected_versions : List VersionCheck → Map ℕ → Map ℕ
expected_versions [] expected = expected
expected_versions (check ∷ checks) expected =
    expected_versions checks (insert check.key check.expected_version expected)

module _ {S : Type 0} (kv : VersionedKvStore S) where
  unfoldable pub undo_write : AppliedWrite → S → S × Bool
  undo_write w store =
      if w.previous_exists
      then kv.put_if_version w.key (next_version w.previous_version) w.previous_value store
      else kv.delete_if_version w.key (next_version w.previous_version) store

  -- The applied writes are newest first, as the reverse iterators walk them. A failure ends the
  -- loop; its return value is used by no caller.
  unfoldable pub rollback_applied_writes : List AppliedWrite → S → Failure → S × Failure
  unfolding undo_write
  rollback_applied_writes [] store failure = (store, failure)
  rollback_applied_writes (w ∷ applied) store failure =
      let (store', ok) = undo_write w store in
      let rest = rollback_applied_writes applied store' failure in
      if ok
      then rest
      else (store', set_failure (codes "fallback rollback failed for " ++ w.key) failure)

  -- `RollbackAppliedWrites`, then the reason unless the rollback left one, then `return false`.
  unfoldable pub give_up : Text → List AppliedWrite → S → Failure → PlainOutcome S
  unfolding rollback_applied_writes
  give_up reason applied store failure =
      let (store', failure') = rollback_applied_writes applied store failure in
      record { done = false; store = store'; failure = set_failure_if_unset reason failure' }

  unfoldable pub apply_writes :
      Map ℕ → List WriteOp → List AppliedWrite → S → Failure → PlainOutcome S
  unfolding give_up
  apply_writes expected [] applied store failure = record {
    done = true;
    store = store;
    failure = failure;
  }
  apply_writes expected (w ∷ writes) applied store failure = elim (find w.key expected) [
    | none ↦ record {
      done = false;
      store = store;
      failure = set_failure (codes "missing expected version for " ++ w.key) failure;
    }
    | some version ↦
        let current = kv.get w.key store in
        let (store', ok) = kv.put_if_version w.key version w.value store in
        let rest =
          apply_writes expected writes (applied_of w.key current ∷ applied) store' failure in
        if current.version == version
        then if ok
          then rest
          else give_up (codes "fallback conditional write failed for " ++ w.key) applied store'
              failure
        else give_up (codes "fallback write version changed for " ++ w.key) applied store failure
  ]

  unfoldable pub commit_without_batch :
      List VersionCheck → List WriteOp → S → Failure → PlainOutcome S
  unfolding expected_versions apply_writes
  commit_without_batch checks writes store failure =
      apply_writes (expected_versions checks []) writes [] store failure
