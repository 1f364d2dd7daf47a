-- ===== src/Cache/WriteBuffer.antt =====
-- cache/write_buffer.h: the buffered entries of a branch with the history that undoes them.
pub mod Undo
pub mod Invariant
pub mod Writes
use data_agent_system.Prelude.{
  ℕ, suc, Text, List, [], ◌∷◌, ◌++◌, Option, none, some, length, ltb, text_eq, if◌then◌else◌,
}
use data_agent_system.Prelude.Map.{Map, find, insert, erase}
use data_agent_system.Cache.Entry.{ObjectCacheEntry}

-- `had_previous` and `previous_entry` are one option.
pub record ChangeRecord : Type 0 where
  pub object_id : Text
  pub previous_entry : Option ObjectCacheEntry

-- `changes` is newest first: the head of the list is the back of the vector.
pub record WriteBuffer : Type 0 where
  pub order : List Text
  pub entries : Map ObjectCacheEntry
  pub changes : List ChangeRecord

abbrev pub empty : WriteBuffer
empty = record { order = []; entries = []; changes = [] }

-- The order of first writes: a known object keeps its place.
listed : Option ObjectCacheEntry → Text → List Text → List Text
listed none object_id order = order ++ object_id ∷ []
listed (some previous) object_id order = order

unfoldable pub upsert : ObjectCacheEntry → WriteBuffer → WriteBuffer
unfolding listed
upsert entry b =
    let previous = find entry.object_id b.entries in
    record {
      order = listed previous entry.object_id b.order;
      entries = insert entry.object_id entry b.entries;
      changes = record { object_id = entry.object_id; previous_entry = previous } ∷ b.changes;
    }

-- `WriteBuffer::Find`
unfoldable pub find_entry : Text → WriteBuffer → Option ObjectCacheEntry
find_entry object_id b = find object_id b.entries

-- `entries_.at` throws at an unknown key: `none`.
pub collect : Map ObjectCacheEntry → List Text → Option (List ObjectCacheEntry)
collect entries [] = some []
collect entries (object_id ∷ order) = elim (find object_id entries) [
  | none ↦ none
  | some entry ↦ elim (collect entries order) [ none ↦ none | some rest ↦ some (entry ∷ rest) ]
]

-- `WriteBuffer::Entries`
unfoldable pub ordered_entries : WriteBuffer → Option (List ObjectCacheEntry)
unfolding collect
ordered_entries b = collect b.entries b.order

-- `std::find` and `order_.erase`
remove_first : Text → List Text → List Text
remove_first k [] = []
remove_first k (j ∷ order) = if text_eq j k then order else j ∷ remove_first k order

-- The body of the loop of `Truncate`, for the change that was popped.
pub undo : ChangeRecord → List Text × Map ObjectCacheEntry → List Text × Map ObjectCacheEntry
undo change (order, entries) = elim change.previous_entry [
  | some previous ↦ (order, insert change.object_id previous entries)
  | none ↦ (remove_first change.object_id order, erase change.object_id entries)
]

pub unwind : ℕ → List ChangeRecord → List Text × Map ObjectCacheEntry → WriteBuffer
unwind n [] (order, entries) = record { order = order; entries = entries; changes = [] }
unwind n (change ∷ changes) (order, entries) =
    if ltb n (suc (length changes))
    then unwind n changes (undo change (order, entries))
    else record { order = order; entries = entries; changes = change ∷ changes }

-- `WriteBuffer::Truncate`
unfoldable pub truncate : ℕ → WriteBuffer → WriteBuffer
unfolding unwind undo remove_first
truncate n b = unwind n b.changes (b.order, b.entries)

-- `WriteBuffer::Size`
unfoldable pub size : WriteBuffer → ℕ
size b = length b.changes
