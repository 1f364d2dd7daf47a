-- ===== src/Storage/Batch.antt =====
-- The conditional batch write of the in-memory store.
use data_agent_system.Prelude.{
  Text, true, false, ◌≡◌, ◌↔◌, refl, arith, Option, none, some, text_eq, text_eq_iff, if◌then◌else◌,
  inl, inr, Bool-cases, List, [], ◌∷◌, All, ◌⊎◌,
}
use data_agent_system.Storage.Interface.{VersionedValue, VersionCheck, WriteOp}
use data_agent_system.Storage.Contract.{written}
use data_agent_system.Storage.Memory.{
  MemoryKvStore, get, get_version, checks_hold, write_all, write_entry, batch_put_if_version,
}
use data_agent_system.Storage.Laws.{get-write_entry}

-- The value that a list of writes has for a key: the first, where the keys are distinct.
unfoldable pub find_write : Text → List WriteOp → Option Text
find_write j [] = none
find_write j (w ∷ writes) = if text_eq w.key j then some w.value else find_write j writes

abbrev pub DistinctKeys : List WriteOp → Type 0
DistinctKeys [] = Unit
DistinctKeys (w ∷ writes) = (find_write w.key writes ≡ none) × DistinctKeys writes

-- A key's value after a list of writes: the new value with the next version.
abbrev pub rewritten : Option Text → VersionedValue → VersionedValue
rewritten none old = old
rewritten (some value) old = written value old.version

pub get-write_all :
    (writes : List WriteOp) (j : Text) (s : MemoryKvStore)
    → DistinctKeys writes
    → get j (write_all writes s) ≡ rewritten (find_write j writes) (get j s)
unfolding write_all find_write
get-write_all [] j s d = refl
get-write_all (w ∷ writes) j s d = ground (
  arith,
  get-write_all writes j (write_entry w.key w.value s) d.1,
  get-write_entry w.key s w.value j,
  text_eq_iff w.key j,
)

abbrev pub Holds : MemoryKvStore → VersionCheck → Type 0
Holds s check = get_version check.key s ≡ check.expected_version

pub checks_hold_iff :
    (checks : List VersionCheck) (s : MemoryKvStore)
    → (checks_hold checks s ≡ true) ↔ All (Holds s) checks
unfolding checks_hold get_version
checks_hold_iff [] s = (λ h. tt, λ h. refl)
checks_hold_iff (c ∷ checks) s = (
  λ h. ground (arith, (checks_hold_iff checks s).0),
  λ h. ground (arith, (checks_hold_iff checks s).1),
)

-- The batch is all or nothing, for writes to distinct keys. If every check holds, each written key
-- has its new value under the next version and no other key changes; otherwise the store is as it
-- was and the call fails.
pub batch_put_if_version_atomic :
    (checks : List VersionCheck) (writes : List WriteOp) (s : MemoryKvStore)
    → DistinctKeys writes
    → let (s', done) = batch_put_if_version checks writes s in
      (All (Holds s) checks
        × (done ≡ true)
        × ((j : Text) → get j s' ≡ rewritten (find_write j writes) (get j s)))
      ⊎ ((¬ All (Holds s) checks) × (done ≡ false) × (s' ≡ s))
unfolding batch_put_if_version
batch_put_if_version_atomic checks writes s d = elim (Bool-cases (checks_hold checks s)) [
  | inl e ↦ inl ((checks_hold_iff checks s).0 e, rw e, λ j. rw e (get-write_all writes j s d))
  | inr e ↦ inr (λ h. cc ((checks_hold_iff checks s).1 h), rw e, rw e)
]
