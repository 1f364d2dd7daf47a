-- ===== src/Branch/Steps.antt =====
-- Work on a branch, as a sequence of the calls of branch/branch_manager.h and
-- agent_txn/rollback_manager.h, each with the store as it is at that time.
use data_agent_system.Prelude.{Text, false, ◌≡◌, List, [], ◌∷◌, text_eq, All}
use data_agent_system.Intent.Types.{WriteIntent}
use data_agent_system.Intent.Log as IntentLog
use data_agent_system.Cache.Entry.{ObjectType}
use data_agent_system.Cache.Savepoint.{Savepoint}
use data_agent_system.Cache.WriteBuffer as WriteBuffer
use data_agent_system.Storage.Interface.{VersionedKvStore}
use data_agent_system.Branch.Context.{BranchContext}
use data_agent_system.Branch.Manager.{read_object, create_savepoint, stage_branch, buffer_write}
use data_agent_system.Branch.Rollback.{rollback_to_savepoint}

-- The work that the code does on a branch.
pub data BranchStep (D : Type 0) : Type 0 where
  reads : Text → BranchStep D
  writes : Text → ObjectType → WriteIntent → BranchStep D
  saves : Text → BranchStep D
  rolls_back : Text → BranchStep D
  stages : D → Text → BranchStep D

module _ {D S : Type 0} (kv : VersionedKvStore S) where
  -- A step with the store as it is at that time.
  unfoldable pub step : S × BranchStep D → BranchContext D → BranchContext D
  step (store, reads object_id) b = (read_object kv store object_id b).0
  step (store, writes object_id object_type intent) b =
      buffer_write kv store object_id object_type intent b
  step (store, saves savepoint_id) b = create_savepoint savepoint_id b
  step (store, rolls_back savepoint_id) b = (rollback_to_savepoint savepoint_id b).0
  step (store, stages score summary) b = stage_branch score summary b

  unfoldable pub run : List (S × BranchStep D) → BranchContext D → BranchContext D
  run [] b = b
  run (s ∷ steps) b = run steps (step s b)

abbrev pub Lacks : Text → List Savepoint → Type 0
Lacks savepoint_id = All (λ sp. text_eq sp.savepoint_id savepoint_id ≡ false)

-- A step that goes back to none of the savepoints `earlier`.
abbrev pub Keeps : {D S : Type 0} → List Savepoint → S × BranchStep D → Type 0
Keeps earlier (store, rolls_back savepoint_id) = Lacks savepoint_id earlier
Keeps earlier (store, _) = Unit

-- The savepoint that `create_savepoint` records.
abbrev pub savepoint_of : {D : Type 0} → Text → BranchContext D → Savepoint
savepoint_of id b = record {
  savepoint_id = id;
  write_log_position = WriteBuffer.size b.write_buffer;
  intent_log_position = IntentLog.size b.intent_log;
}
