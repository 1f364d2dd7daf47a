-- ===== src/Storage/File/Agreement.antt =====
-- The operations of FileKVStore beside those of MemoryKVStore.
use data_agent_system.Prelude.{
  ℕ, Text, Bool, true, false, List, ◌≡◌, refl, ◌==◌, Bool-cases, inl, inr,
}
use data_agent_system.Prelude.Map.{find, insert, erase}
use data_agent_system.Fallback.Durable.{IsReliable}
use data_agent_system.Storage.Interface.{VersionCheck, WriteOp}
use data_agent_system.Storage.Memory as Memory
use data_agent_system.Storage.Memory.{
  MemoryKvStore, checks_hold, write_all, write_entry, current_version, entry_or_default,
}
use data_agent_system.Storage.File.{
  FileKvStore, put, put_if_version, delete_if_version, batch_put_if_version, persist_values,
  snapshot_text,
}
use data_agent_system.Storage.File.Steps.{IsSaved, persist_to_disk-IsSaved}

-- A step of the file store goes with a step of the in-memory store: the same result, the same
-- values, a disk that does not fail and, after a success, the file with the text of the values.
pub record Agrees (path : Text) (step : FileKvStore × Bool) (memory : MemoryKvStore × Bool)
    : Type 0 where
  pub result : step.1 ≡ memory.1
  pub values : step.0.values ≡ memory.0
  pub reliable : IsReliable step.0.disk
  pub saved : memory.1 ≡ true → IsSaved path (snapshot_text memory.0) step.0.disk

module _ (path : Text) (s : FileKvStore) (h : IsReliable s.disk) where
  persisted :
      (values : MemoryKvStore) → Agrees path (persist_values path values s.disk) (values, true)
  unfolding persist_values
  persisted values =
      let (ok, saved) = persist_to_disk-IsSaved path values s.disk h in
      record { result = ok; values = refl; reliable = saved.reliable; saved = λ e. saved }

  refused :
      (values : MemoryKvStore) → Agrees path (record s { values = values }, false) (values, false)
  refused values = record { result = refl; values = refl; reliable = h; saved = λ e. cc e }

  -- On a disk that does not fail, each of the four writing calls of the file store returns what the
  -- same call of the in-memory store returns for the same values, leaves the values that it leaves,
  -- and after a success the file at the path is the text of these values, with no temporary file and
  -- no journal beside it.
  pub file_kv_store-Agrees :
      (key value : Text) (version : ℕ) (checks : List VersionCheck) (writes : List WriteOp)
      → Agrees path (put path key value s) (Memory.put key value s.values)
        × Agrees path
            (put_if_version path key version value s)
            (Memory.put_if_version key version value s.values)
        × Agrees path
            (delete_if_version path key version s)
            (Memory.delete_if_version key version s.values)
        × Agrees path
            (batch_put_if_version path checks writes s)
            (Memory.batch_put_if_version checks writes s.values)
  unfolding put put_if_version delete_if_version batch_put_if_version Memory.put
      Memory.put_if_version Memory.delete_if_version Memory.batch_put_if_version
  file_kv_store-Agrees key value version checks writes = (
    persisted (write_entry key value s.values),
    elim (Bool-cases ((entry_or_default (find key s.values)).version == version)) [
      | inl e ↦ rw e (persisted (write_entry key value s.values))
      | inr e ↦ rw e (refused (insert key (entry_or_default (find key s.values)) s.values))
    ],
    elim (Bool-cases (current_version key s.values == version)) [
      | inl e ↦ rw e (persisted (erase key s.values))
      | inr e ↦ rw e (refused s.values)
    ],
    elim (Bool-cases (checks_hold checks s.values)) [
      | inl e ↦ rw e (persisted (write_all writes s.values))
      | inr e ↦ rw e (refused s.values)
    ],
  )
