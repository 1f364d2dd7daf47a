-- ===== src/Txn/Validation.antt =====
-- agent_txn/validation_manager.h
use data_agent_system.Prelude.{
  Text, Bool, true, false, List, [], ◌∷◌, ◌++◌, Option, none, some, ◌==◌, codes, if◌then◌else◌,
}
use data_agent_system.Prelude.Map.{Map, find, insert}
use data_agent_system.Intent.Types.{IntentType, WriteIntent}
use data_agent_system.Intent.Policy.{uses_semantic_rebase}
use data_agent_system.Cache.ReadSet.{ReadRecord}
use data_agent_system.Storage.Interface.{VersionedKvStore}
use data_agent_system.Branch.Context.{BranchContext}
use data_agent_system.Txn.Context.{ValidationResult}

-- The type of the last intent for each object.
latest_types : List WriteIntent → Map IntentType → Map IntentType
latest_types [] latest = latest
latest_types (intent ∷ intents) latest =
    latest_types intents (insert intent.object_id intent.intent_type latest)

-- A read is exempt if the last intent for its object is rebased at the commit.
rebased : Option IntentType → Bool
rebased none = false
rebased (some intent_type) = uses_semantic_rebase intent_type

unfoldable pub is_exempt : List WriteIntent → Text → Bool
unfolding latest_types rebased
is_exempt intents object_id = rebased (find object_id (latest_types intents []))

abbrev pub valid : ValidationResult
valid = record { success = true; reason = [] }

abbrev pub stale : Text → ValidationResult
stale object_id = record {
  success = false;
  reason = codes "strict validation failed for " ++ object_id;
}

module _ {S : Type 0} (kv : VersionedKvStore S) where
  unfoldable pub validate_reads : List WriteIntent → S → List ReadRecord → ValidationResult
  validate_reads intents store [] = valid
  validate_reads intents store (read ∷ reads) =
      let rest = validate_reads intents store reads in
      if is_exempt intents read.object_id
      then rest
      else if kv.get_version read.object_id store == read.observed_version
      then rest
      else stale read.object_id

  unfoldable pub validate_winner : {D : Type 0} → BranchContext D → S → ValidationResult
  unfolding validate_reads
  validate_winner winner store =
      validate_reads winner.intent_log.intents store winner.read_set.entries
