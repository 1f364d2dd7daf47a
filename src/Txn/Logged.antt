-- ===== src/Txn/Logged.antt =====
-- The commit log of a transaction against the writes that it was made of.
use data_agent_system.Prelude.{
  ℕ, Text, false, List, [], ◌∷◌, none, some, ◌≡◌, refl, arith, text_eq, text_eq_iff, text_eq_refl,
  map, All,
}
use data_agent_system.Prelude.Map.{Map}
use data_agent_system.Storage.Interface.{WriteOp}
use data_agent_system.Storage.Batch.{find_write, DistinctKeys}
use data_agent_system.Txn.Context.{CommitLogEntry}
use data_agent_system.Txn.Commit.{log_entry}

-- A listed write is the one that is found under its key.
pub All-find_write :
    (all writes : List WriteOp)
    → DistinctKeys writes
    → ((k v : Text) → find_write k writes ≡ some v → find_write k all ≡ some v)
    → All (λ w. find_write w.key all ≡ some w.value) writes
unfolding find_write
All-find_write all [] d sub = tt
All-find_write all (w ∷ writes) d sub = (
  sub w.key w.value (rw (text_eq_refl w.key)),
  All-find_write all writes d.1 (λ k v h. sub k v (ground (arith, text_eq_iff w.key k))),
)

-- The log has no entry for the key.
abbrev pub NotLogged : Text → List CommitLogEntry → Type 0
NotLogged j = All (λ e. text_eq e.key j ≡ false)

pub find_write-NotLogged :
    (seen : Map ℕ) (j : Text) (writes : List WriteOp)
    → NotLogged j (map (log_entry seen) writes)
    → find_write j writes ≡ none
unfolding find_write log_entry
find_write-NotLogged seen j [] h = refl
find_write-NotLogged seen j (w ∷ writes) h = rw h.0 (find_write-NotLogged seen j writes h.1)
