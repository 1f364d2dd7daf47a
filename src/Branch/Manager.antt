-- ===== src/Branch/Manager.antt =====
-- branch/branch_manager.h. A method that takes a branch by reference returns the new branch. The
-- store is only read here.
use data_agent_system.Prelude.{
  Text, Bool, true, false, List, [], ◌∷◌, ◌++◌, Option, none, some, ◌||◌, not, if◌then◌else◌,
  text_eq, is_empty, map,
}
use data_agent_system.Prelude.Int.{ℤ, ◌+ℤ◌, wrap_int64}
use data_agent_system.Intent.Types.{IntentType, WriteIntent, read, overwrite, append, delta, cas}
use data_agent_system.Intent.Log as IntentLog
use data_agent_system.Intent.Number.{parse_int, print_ℤ}
use data_agent_system.Cache.Entry.{ObjectCacheEntry, ObjectType}
use data_agent_system.Cache.ReadSet as ReadSet
use data_agent_system.Cache.WriteBuffer as WriteBuffer
use data_agent_system.Storage.Interface.{VersionedValue, VersionedKvStore}
use data_agent_system.Branch.Context.{
  BranchContext, Double, ReadResult, created, running, staged, winner, loser,
}

module _ {D : Type 0} (fp : Double D) where
  -- The new branch, which the caller's reference names, is the last one.
  unfoldable pub create_branch : Text → List (BranchContext D) → List (BranchContext D)
  create_branch branch_id branches =
      branches
      ++ record {
        branch_id = branch_id;
        status = created;
        read_set = ReadSet.empty;
        write_buffer = WriteBuffer.empty;
        intent_log = IntentLog.empty;
        candidate_result = record { score = fp.zero; summary = [] };
        savepoints = [];
      }
        ∷ []

  -- `std::max_element`: the first of the branches with the largest score.
  unfoldable pub max_element : BranchContext D → List (BranchContext D) → BranchContext D
  max_element best [] = best
  max_element best (b ∷ branches) =
      max_element (if fp.less best.candidate_result.score b.candidate_result.score then b else best)
        branches

  -- `none` is the exception for an empty list.
  unfoldable pub select_winner : List (BranchContext D) → Option Text
  unfolding max_element
  select_winner [] = none
  select_winner (b ∷ branches) = some (max_element b branches).branch_id

-- `undo_record.existed || !base_value.empty() || !current_value.empty()`
buffered_result : ObjectCacheEntry → ReadResult
buffered_result e = record {
  value = e.current_value;
  version = e.base_version;
  exists = e.undo_record.existed || (not (is_empty e.base_value) || not (is_empty e.current_value));
}

module _ {D : Type 0} where
  -- Both overloads: the pointer to the branch, `none` for `nullptr`.
  unfoldable pub find_branch : Text → List (BranchContext D) → Option (BranchContext D)
  find_branch branch_id [] = none
  find_branch branch_id (b ∷ branches) =
      if text_eq b.branch_id branch_id then some b else find_branch branch_id branches

  unfoldable pub mark : Text → BranchContext D → BranchContext D
  mark winner_branch_id b =
      if text_eq b.branch_id winner_branch_id
      then record b { status = winner }
      else record b { status = loser }

  unfoldable pub mark_winner_and_losers : Text → List (BranchContext D) → List (BranchContext D)
  unfolding mark
  mark_winner_and_losers winner_branch_id = map (mark winner_branch_id)

  read_from_store : Text → VersionedValue → BranchContext D → BranchContext D × ReadResult
  read_from_store object_id v b = (
    record b { read_set = ReadSet.record_read object_id v.version b.read_set },
    record { value = v.value; version = v.version; exists = v.exists },
  )

  -- A buffered object is read from the buffer, and the read set does not note it.
  unfoldable pub read_object :
      {S : Type 0} → VersionedKvStore S → S → Text → BranchContext D → BranchContext D × ReadResult
  unfolding buffered_result read_from_store
  read_object kv store object_id b =
      let b' : BranchContext D = record b { status = running } in
      elim (WriteBuffer.find_entry object_id b.write_buffer) [
        | some e ↦ (b', buffered_result e)
        | none ↦ read_from_store object_id (kv.get object_id store) b'
      ]

  -- The reference to the new savepoint is the last one of the branch.
  unfoldable pub create_savepoint : Text → BranchContext D → BranchContext D
  create_savepoint savepoint_id b = record b {
    savepoints =
        b.savepoints
        ++ record {
          savepoint_id = savepoint_id;
          write_log_position = WriteBuffer.size b.write_buffer;
          intent_log_position = IntentLog.size b.intent_log;
        }
          ∷ [];
  }

  unfoldable pub stage_branch : D → Text → BranchContext D → BranchContext D
  stage_branch score summary b = record b {
    candidate_result = record { score = score; summary = summary };
    status = staged;
  }

-- The entry that a first write to an object starts from.
fresh_entry : Text → ObjectType → VersionedValue → ObjectCacheEntry
fresh_entry object_id object_type base = record {
  object_id = object_id;
  object_type = object_type;
  base_value = base.value;
  base_version = base.version;
  current_value = base.value;
  dirty = false;
  intent_type = read;
  undo_record = record { previous_value = base.value; existed = base.exists };
}

-- The sum of two `long long`. Its overflow is undefined in C++; the model wraps.
add_text : Option ℤ → Option ℤ → Text → Text
add_text (some a) (some b) otherwise = print_ℤ (wrap_int64 (a +ℤ b))
add_text _ _ otherwise = otherwise

-- The `switch` of `BufferWrite`: the new current value.
unfoldable pub apply_intent : IntentType → Text → ObjectCacheEntry → Text
unfolding add_text
apply_intent read payload e = e.base_value
apply_intent overwrite payload e = payload
apply_intent cas payload e = payload
apply_intent append payload e = e.current_value ++ payload
apply_intent delta payload e =
    add_text (parse_int e.current_value) (parse_int payload) e.current_value

is_read : IntentType → Bool
is_read read = true
is_read _ = false

updated_entry : ObjectType → WriteIntent → ObjectCacheEntry → ObjectCacheEntry
updated_entry object_type intent e = record e {
  object_type = object_type;
  dirty = not (is_read intent.intent_type);
  intent_type = intent.intent_type;
  current_value = apply_intent intent.intent_type intent.payload e;
}

existing_or_fresh :
    {S : Type 0}
    → VersionedKvStore S
    → S
    → Text
    → ObjectType
    → Option ObjectCacheEntry
    → ObjectCacheEntry
existing_or_fresh kv store object_id object_type (some e) = e
existing_or_fresh kv store object_id object_type none =
    fresh_entry object_id object_type (kv.get object_id store)

-- The entry that `BufferWrite` puts into the buffer.
unfoldable pub write_entry :
    {S : Type 0}
    → VersionedKvStore S
    → S
    → Text
    → ObjectType
    → WriteIntent
    → WriteBuffer.WriteBuffer
    → ObjectCacheEntry
unfolding existing_or_fresh updated_entry fresh_entry is_read
write_entry kv store object_id object_type intent buffer =
    updated_entry object_type intent
      (existing_or_fresh kv store object_id object_type (WriteBuffer.find_entry object_id buffer))

unfoldable pub buffer_write :
    {D S : Type 0}
    → VersionedKvStore S
    → S
    → Text
    → ObjectType
    → WriteIntent
    → BranchContext D
    → BranchContext D
unfolding write_entry
buffer_write kv store object_id object_type intent b = record b {
  status = running;
  write_buffer =
      WriteBuffer.upsert (write_entry kv store object_id object_type intent b.write_buffer)
        b.write_buffer;
  intent_log = IntentLog.append intent b.intent_log;
}
