-- ===== src/Storage/Memory.antt =====
-- storage/memory_kv_store.h. Every call holds the mutex from its first line to its return, so a
-- call is one step on the map.
use data_agent_system.Prelude.{
  ℕ, Text, Bool, true, false, List, [], ◌∷◌, Option, none, some, ◌==◌, ◌&&◌, if◌then◌else◌,
  next_version,
}
use data_agent_system.Prelude.Map.{Map, find, insert, erase}
use data_agent_system.Storage.Interface.{VersionedValue, VersionCheck, WriteOp, VersionedKvStore}

pub record Entry : Type 0 where
  pub value : Text
  pub version : ℕ

abbrev pub MemoryKvStore : Type 0
MemoryKvStore = Map Entry

-- `Entry` by default, which `values_[key]` makes of a missing key.
abbrev pub default_entry : Entry
default_entry = record { value = []; version = 0 }

unfoldable pub entry_or_default : Option Entry → Entry
entry_or_default none = default_entry
entry_or_default (some entry) = entry

as_value : Option Entry → VersionedValue
as_value none = record { value = []; version = 0; exists = false }
as_value (some entry) = record { value = entry.value; version = entry.version; exists = true }

unfoldable pub get : Text → MemoryKvStore → VersionedValue
unfolding as_value
get key values = as_value (find key values)

unfoldable pub get_version : Text → MemoryKvStore → ℕ
unfolding get
get_version key values = (get key values).version

-- `auto& entry = values_[key]; entry.value = value; entry.version += 1;`
unfoldable pub write_entry : Text → Text → MemoryKvStore → MemoryKvStore
unfolding entry_or_default
write_entry key value values =
    let entry = entry_or_default (find key values) in
    insert key (record { value = value; version = next_version entry.version }) values

unfoldable pub put : Text → Text → MemoryKvStore → MemoryKvStore × Bool
unfolding write_entry
put key value values = (write_entry key value values, true)

-- `values_[key]` makes an entry also where the versions differ.
unfoldable pub put_if_version : Text → ℕ → Text → MemoryKvStore → MemoryKvStore × Bool
unfolding write_entry entry_or_default
put_if_version key expected_version value values =
    let entry = entry_or_default (find key values) in
    if entry.version == expected_version
    then (write_entry key value values, true)
    else (insert key entry values, false)

unfoldable pub current_version : Text → MemoryKvStore → ℕ
current_version key values = elim (find key values) [ none ↦ 0 | some entry ↦ entry.version ]

unfoldable pub delete_if_version : Text → ℕ → MemoryKvStore → MemoryKvStore × Bool
unfolding current_version
delete_if_version key expected_version values =
    if current_version key values == expected_version
    then (erase key values, true)
    else (values, false)

-- The first loop of `BatchPutIfVersion`.
unfoldable pub checks_hold : List VersionCheck → MemoryKvStore → Bool
unfolding current_version
checks_hold [] values = true
checks_hold (check ∷ checks) values =
    (current_version check.key values == check.expected_version) && checks_hold checks values

-- The second loop.
unfoldable pub write_all : List WriteOp → MemoryKvStore → MemoryKvStore
unfolding write_entry
write_all [] values = values
write_all (write ∷ writes) values = write_all writes (write_entry write.key write.value values)

unfoldable pub batch_put_if_version :
    List VersionCheck → List WriteOp → MemoryKvStore → MemoryKvStore × Bool
unfolding checks_hold write_all
batch_put_if_version checks writes values =
    if checks_hold checks values then (write_all writes values, true) else (values, false)

unfoldable pub memory_kv_store : VersionedKvStore MemoryKvStore
memory_kv_store = record {
  supports_atomic_batch_conditional_write = true;
  get = get;
  get_version = get_version;
  put = put;
  put_if_version = put_if_version;
  delete_if_version = delete_if_version;
  batch_put_if_version = batch_put_if_version;
}
