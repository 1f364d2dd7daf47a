-- ===== src/Tests/Stores.antt =====
-- Stores at concrete inputs.
use data_agent_system.Prelude.{Text, ◌≡◌, refl, true, false, ◌⊎◌, [], ◌∷◌, All}
use data_agent_system.Storage.Memory.{get, batch_put_if_version}
use data_agent_system.Storage.Batch.{
  DistinctKeys, Holds, find_write, rewritten, batch_put_if_version_atomic,
}
use data_agent_system.Tests.Data.{check, note_write, store}

note_write_distinct : DistinctKeys (note_write ∷ [])
unfolding find_write
note_write_distinct = (refl, tt)

batch_put_if_version_atomic_example :
    let (s', done) = batch_put_if_version (check ∷ []) (note_write ∷ []) store in
    (All (Holds store) (check ∷ [])
      × (done ≡ true)
      × ((j : Text) → get j s' ≡ rewritten (find_write j (note_write ∷ [])) (get j store)))
    ⊎ ((¬ All (Holds store) (check ∷ [])) × (done ≡ false) × (s' ≡ store))
batch_put_if_version_atomic_example =
    batch_put_if_version_atomic (check ∷ []) (note_write ∷ []) store note_write_distinct
