-- ===== src/Storage/Contract.antt =====
-- What clients of the versioned store rely on when they alone use it.
use data_agent_system.Prelude.{
  ℕ, Text, true, false, ◌≡◌, ◌≢◌, [], text_eq, next_version, if◌then◌else◌,
}
use data_agent_system.Storage.Interface.{VersionedValue, VersionedKvStore}

-- A key that the store does not have.
abbrev pub missing : VersionedValue
missing = record { value = []; version = 0; exists = false }

-- What a write leaves at its key.
abbrev pub written : Text → ℕ → VersionedValue
written value version = record { value = value; version = next_version version; exists = true }

-- `s` with another value at `key`.
pub record Updated {S : Type 0} (get : Text → S → VersionedValue) (key : Text) (v : VersionedValue)
    (s s' : S) : Type 0 where
  pub at_key : (j : Text) → get j s' ≡ (if text_eq key j then v else get j s)

-- A refused write may make the key exist, with no other change.
pub record Unchanged {S : Type 0} (get : Text → S → VersionedValue) (s s' : S) : Type 0 where
  pub value : (j : Text) → (get j s').value ≡ (get j s).value
  pub version : (j : Text) → (get j s').version ≡ (get j s).version

pub record IsVersioned {S : Type 0} (kv : VersionedKvStore S) : Type 0 where
  pub get_version_lem : (key : Text) (s : S) → kv.get_version key s ≡ (kv.get key s).version
  pub missing_lem : (key : Text) (s : S) → (kv.get key s).exists ≡ false → kv.get key s ≡ missing
  pub put_hit :
      (key value : Text) (version : ℕ) (s : S)
      → (kv.get key s).version ≡ version
      → ((kv.put_if_version key version value s).1 ≡ true)
        × Updated kv.get key (written value version) s (kv.put_if_version key version value s).0
  pub put_miss :
      (key value : Text) (version : ℕ) (s : S)
      → (kv.get key s).version ≢ version
      → ((kv.put_if_version key version value s).1 ≡ false)
        × Unchanged kv.get s (kv.put_if_version key version value s).0
  pub delete_hit :
      (key : Text) (version : ℕ) (s : S)
      → (kv.get key s).version ≡ version
      → ((kv.delete_if_version key version s).1 ≡ true)
        × Updated kv.get key missing s (kv.delete_if_version key version s).0
  pub delete_miss :
      (key : Text) (version : ℕ) (s : S)
      → (kv.get key s).version ≢ version
      → kv.delete_if_version key version s ≡ (s, false)
