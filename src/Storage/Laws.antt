-- ===== src/Storage/Laws.antt =====
-- The in-memory stores keep the contract of a versioned store.
use data_agent_system.Prelude.{
  ℕ, Text, true, false, ◌≡◌, ◌≢◌, refl, arith, text_eq, text_eq_iff, if◌then◌else◌,
}
use data_agent_system.Prelude.Map.{find, insert, erase, find-insert, find-erase}
use data_agent_system.Storage.Contract.{IsVersioned, written, missing}
use data_agent_system.Storage.NonBatch.{non_batch_memory_kv_store}
use data_agent_system.Storage.Memory.{
  MemoryKvStore, get, get_version, put_if_version, delete_if_version, memory_kv_store, write_entry,
  entry_or_default,
}

module _ (key : Text) (s : MemoryKvStore) where
  pub get-write_entry :
      (value j : Text)
      → get j (write_entry key value s)
        ≡ (if text_eq key j then written value (get key s).version else get j s)
  unfolding get write_entry
  get-write_entry value j = rw (find-insert key j _ s) (ground arith)

  pub get-erase : (j : Text) → get j (erase key s) ≡ (if text_eq key j then missing else get j s)
  unfolding get
  get-erase j = rw (find-erase key j s) (ground arith)

  get-insert_default :
      (j : Text)
      → ((get j (insert key (entry_or_default (find key s)) s)).value ≡ (get j s).value)
        × ((get j (insert key (entry_or_default (find key s)) s)).version ≡ (get j s).version)
  unfolding get write_entry
  get-insert_default j =
      rw (find-insert key j (entry_or_default (find key s)) s) (ground (arith, text_eq_iff key j))

  put_if_version_hit :
      (value : Text) (version : ℕ)
      → (get key s).version ≡ version
      → put_if_version key version value s ≡ (write_entry key value s, true)
  unfolding put_if_version get
  put_if_version_hit value version h = ground arith

  put_if_version_miss :
      (value : Text) (version : ℕ)
      → (get key s).version ≢ version
      → put_if_version key version value s ≡ (insert key (entry_or_default (find key s)) s, false)
  unfolding put_if_version get
  put_if_version_miss value version h = ground arith

  delete_if_version_hit :
      (version : ℕ)
      → (get key s).version ≡ version
      → delete_if_version key version s ≡ (erase key s, true)
  unfolding delete_if_version get
  delete_if_version_hit version h = ground arith

  delete_if_version_miss :
      (version : ℕ) → (get key s).version ≢ version → delete_if_version key version s ≡ (s, false)
  unfolding delete_if_version get
  delete_if_version_miss version h = ground arith

  missing_value : (get key s).exists ≡ false → get key s ≡ missing
  unfolding get
  missing_value h = ground arith

-- The in-memory store keeps the contract of a versioned store: the conditional writes and deletes
-- take effect exactly at the expected version, change the one key only, and a refused one changes no
-- value and no version.
pub memory-IsVersioned : IsVersioned memory_kv_store
unfolding memory_kv_store get_version
memory-IsVersioned = record {
  get_version_lem = λ key s. refl;
  missing_lem = λ key s h. missing_value key s h;
  put_hit = λ key value version s h.
      rw (put_if_version_hit key s value version h)
        (refl, record { at_key = λ j. rw (← h) (get-write_entry key s value j) });
  put_miss = λ key value version s h. rw (put_if_version_miss key s value version h) (
    refl,
    record {
      value = λ j. (get-insert_default key s j).0;
      version = λ j. (get-insert_default key s j).1;
    },
  );
  delete_hit = λ key version s h.
      rw (delete_if_version_hit key s version h) (refl, record { at_key = get-erase key s });
  delete_miss = λ key version s h. delete_if_version_miss key s version h;
}

-- So does the store that refuses batches.
pub non_batch-IsVersioned : IsVersioned non_batch_memory_kv_store
unfolding memory_kv_store non_batch_memory_kv_store
non_batch-IsVersioned = record {
  get_version_lem = m.get_version_lem;
  missing_lem = m.missing_lem;
  put_hit = m.put_hit;
  put_miss = m.put_miss;
  delete_hit = m.delete_hit;
  delete_miss = m.delete_miss;
}
  where
    m : IsVersioned memory_kv_store
    m = memory-IsVersioned
