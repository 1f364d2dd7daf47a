-- ===== src/Txn/Manager.antt =====
-- agent_txn/agent_txn_manager.h: the life of a transaction, and `AbortTransaction` of
-- agent_txn/rollback_manager.h.
use data_agent_system.Prelude.{
  Text, Bool, true, false, List, [], ◌∷◌, Option, none, some, codes, map, text_eq, if◌then◌else◌,
}
use data_agent_system.Storage.Interface.{VersionedKvStore}
use data_agent_system.Branch.Context.{BranchContext, Double}
use data_agent_system.Branch.Context as Branch
use data_agent_system.Branch.Manager as BranchManager
use data_agent_system.Branch.Manager.{select_winner, mark_winner_and_losers, find_branch}
use data_agent_system.Branch.Rollback.{discard_branch}
use data_agent_system.Fallback.Recovery.{World}
use data_agent_system.Txn.Context.{
  AgentTxnContext, running, committed, aborted, ValidationResult, no_result, Failure,
}
use data_agent_system.Txn.Validation.{validate_winner}
use data_agent_system.Txn.Commit.{CommitOutcome, commit_winner}

-- The transaction and the world after a call, with its result.
pub record TxnOutcome (D S : Type 0) : Type 0 where
  pub done : Bool
  pub txn : AgentTxnContext D
  pub world : World S

module _ {D : Type 0} (fp : Double D) where
  unfoldable pub begin : Text → Text → AgentTxnContext D
  begin txn_id task_id = record {
    txn_id = txn_id;
    task_id = task_id;
    status = running;
    branches = [];
    winner_branch_id = [];
    commit_log = [];
    validation_result = no_result;
    metrics = record {
      branch_count = 0;
      planned_loser_count = 0;
      winner_commit_count = 0;
      real_abort_count = 0;
      conflict_abort_count = 0;
      validation_fail_count = 0;
      retry_count = 0;
      commit_latency_us = fp.zero;
    };
    fallback_commit = record { artifact_path = []; simulate_crash_after_apply_count = 0 };
  }

  unfoldable pub create_branch : Text → AgentTxnContext D → AgentTxnContext D
  create_branch branch_id txn = record txn {
    branches = BranchManager.create_branch fp branch_id txn.branches;
  }

-- The failure that `CommitWinner` wrote into the caller's variable.
failure_or_none : Failure → ValidationResult
failure_or_none none = no_result
failure_or_none (some r) = r

module _ {D : Type 0} where
  unfoldable pub abort_transaction : AgentTxnContext D → AgentTxnContext D
  abort_transaction txn = record txn {
    status = aborted;
    branches = map discard_branch txn.branches;
  }

  -- `winner->status = kCommitted`, through the pointer that `FindBranch` returned: the first branch
  -- with the identifier.
  unfoldable pub set_committed : Text → List (BranchContext D) → List (BranchContext D)
  set_committed branch_id [] = []
  set_committed branch_id (b ∷ branches) =
      if text_eq b.branch_id branch_id
      then record b { status = Branch.committed } ∷ branches
      else b ∷ set_committed branch_id branches

  unfoldable pub discard_other : Text → BranchContext D → BranchContext D
  discard_other branch_id b = if text_eq b.branch_id branch_id then b else discard_branch b

  unfoldable pub close_transaction : AgentTxnContext D → AgentTxnContext D
  unfolding set_committed discard_other
  close_transaction txn = record txn {
    status = committed;
    branches =
        map (discard_other txn.winner_branch_id) (set_committed txn.winner_branch_id txn.branches);
  }

  unfoldable pub fail :
      {S : Type 0} → AgentTxnContext D → ValidationResult → World S → TxnOutcome D S
  fail txn result world = record {
    done = false;
    txn = abort_transaction (record txn { validation_result = result });
    world = world;
  }

  unfoldable pub finish : {S : Type 0} → AgentTxnContext D → CommitOutcome S → TxnOutcome D S
  unfolding close_transaction fail failure_or_none
  finish txn o =
      let txn' : AgentTxnContext D = record txn { commit_log = o.commit_log } in
      if o.done
      then record { done = true; txn = close_transaction txn'; world = o.world }
      else fail txn' (failure_or_none o.failure) o.world

module _ {D S : Type 0} (fp : Double D) (kv : VersionedKvStore S) where
  unfoldable pub commit_valid :
      AgentTxnContext D → BranchContext D → ValidationResult → World S → Option (TxnOutcome D S)
  unfolding fail finish
  commit_valid txn winner result world =
      let txn' : AgentTxnContext D = record txn { validation_result = result } in
      if result.success
      then elim (commit_winner kv txn' winner world (some no_result)) [
        | none ↦ none
        | some o ↦ some (finish txn' o)
      ]
      else some (fail txn result world)

  unfoldable pub commit_found :
      AgentTxnContext D → Option (BranchContext D) → World S → Option (TxnOutcome D S)
  unfolding fail commit_valid
  commit_found txn none world =
      some (fail txn (record { success = false; reason = codes "winner branch not found" }) world)
  commit_found txn (some winner) world =
      commit_valid txn winner (validate_winner kv winner world.store) world

  unfoldable pub commit_selected : AgentTxnContext D → Text → World S → Option (TxnOutcome D S)
  unfolding commit_found
  commit_selected txn winner_branch_id world =
      let branches = mark_winner_and_losers winner_branch_id txn.branches in
      commit_found (record txn { winner_branch_id = winner_branch_id; branches = branches })
        (find_branch winner_branch_id branches) world

  -- `none` is an exception: no branches, or a buffer that lists an object with no entry.
  unfoldable pub select_winner_and_commit : AgentTxnContext D → World S → Option (TxnOutcome D S)
  unfolding commit_selected
  select_winner_and_commit txn world = elim (select_winner fp txn.branches) [
    | none ↦ none
    | some winner_branch_id ↦ commit_selected txn winner_branch_id world
  ]
