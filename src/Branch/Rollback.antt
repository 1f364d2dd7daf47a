-- ===== src/Branch/Rollback.antt =====
-- agent_txn/rollback_manager.h, as far as it works on one branch.
use data_agent_system.Prelude.{
  Text, Bool, true, false, List, [], ◌∷◌, ◌++◌, Option, none, some, if◌then◌else◌, text_eq,
}
use data_agent_system.Intent.Log as IntentLog
use data_agent_system.Cache.Savepoint.{Savepoint}
use data_agent_system.Cache.WriteBuffer as WriteBuffer
use data_agent_system.Branch.Context.{BranchContext, discarded}

unfoldable pub keep_before :
    List Savepoint → Option (Savepoint × List Savepoint) → Option (Savepoint × List Savepoint)
keep_before earlier none = none
keep_before earlier (some (sp, kept)) = some (sp, earlier ++ kept)

-- `std::find_if` for the savepoint, and the savepoints from the first to this one.
unfoldable pub find_savepoint : Text → List Savepoint → Option (Savepoint × List Savepoint)
unfolding keep_before
find_savepoint id [] = none
find_savepoint id (sp ∷ savepoints) =
    if text_eq sp.savepoint_id id
    then some (sp, sp ∷ [])
    else keep_before (sp ∷ []) (find_savepoint id savepoints)

module _ {D : Type 0} where
  unfoldable pub discard_branch : BranchContext D → BranchContext D
  discard_branch b = record b {
    write_buffer = WriteBuffer.truncate 0 b.write_buffer;
    intent_log = IntentLog.truncate 0 b.intent_log;
    savepoints = [];
    status = discarded;
  }

  -- The read set and the status stay; the savepoint itself is kept.
  unfoldable pub restore :
      Option (Savepoint × List Savepoint) → BranchContext D → BranchContext D × Bool
  restore none b = (b, false)
  restore (some (sp, kept)) b = (
    record b {
      write_buffer = WriteBuffer.truncate sp.write_log_position b.write_buffer;
      intent_log = IntentLog.truncate sp.intent_log_position b.intent_log;
      savepoints = kept;
    },
    true,
  )

  unfoldable pub rollback_to_savepoint : Text → BranchContext D → BranchContext D × Bool
  unfolding find_savepoint restore
  rollback_to_savepoint savepoint_id b = restore (find_savepoint savepoint_id b.savepoints) b
