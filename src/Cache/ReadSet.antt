-- ===== src/Cache/ReadSet.antt =====
-- cache/read_set.h
use data_agent_system.Prelude.{ℕ, Text, List, [], ◌∷◌, ◌++◌}

pub record ReadRecord : Type 0 where
  pub object_id : Text
  pub observed_version : ℕ

-- Oldest first.
pub record ReadSet : Type 0 where
  pub entries : List ReadRecord

abbrev pub empty : ReadSet
empty = record { entries = [] }

-- `ReadSet::Record`
unfoldable pub record_read : Text → ℕ → ReadSet → ReadSet
record_read object_id observed_version set = record {
  entries =
      set.entries ++ record { object_id = object_id; observed_version = observed_version } ∷ [];
}
