-- ===== src/Txn/Attempts.antt =====
-- The attempt to commit a transaction through the in-memory store, as the manager runs it.
use data_agent_system.Prelude.{
  ◌≡◌, refl, ap, ◌∙◌, true, false, inl, inr, ◌⊎◌, arith, List, [], ◌∷◌, none, some, Option, All,
  Bool-cases, text_eq, text_eq_iff, Text, map,
}
use data_agent_system.Intent.Log as IntentLog
use data_agent_system.Cache.WriteBuffer as WriteBuffer
use data_agent_system.Cache.WriteBuffer.Invariant.{IsWellFormed, truncate_zero}
use data_agent_system.Storage.Memory.{MemoryKvStore, memory_kv_store, get}
use data_agent_system.Branch.Context.{BranchContext, Double, discarded}
use data_agent_system.Branch.Manager.{
  find_branch, mark, mark_winner_and_losers, max_element, select_winner,
}
use data_agent_system.Branch.Rollback.{discard_branch}
use data_agent_system.Fallback.Recovery.{World}
use data_agent_system.Txn.Context.{AgentTxnContext, ValidationResult, committed, aborted, no_result}
use data_agent_system.Txn.Commit.{CommitOutcome}
use data_agent_system.Txn.Logged.{NotLogged}
use data_agent_system.Txn.BatchCommit.{IsApplied, CommitsOrRefuses, commit_winner_batch}
use data_agent_system.Txn.Manager.{
  TxnOutcome, abort_transaction, close_transaction, set_committed, discard_other, fail, finish,
  commit_valid, commit_found, commit_selected, select_winner_and_commit,
}

abbrev pub HasWellFormedBuffer : {D : Type 0} → BranchContext D → Type 0
HasWellFormedBuffer b = IsWellFormed b.write_buffer

-- A branch that holds no work any more.
pub record IsDiscarded {D : Type 0} (b : BranchContext D) : Type 0 where
  pub status : b.status ≡ discarded
  pub write_buffer : b.write_buffer ≡ WriteBuffer.empty
  pub intent_log : b.intent_log ≡ IntentLog.empty
  pub savepoints : b.savepoints ≡ []

module _ {D : Type 0} where
  discard_branch-IsDiscarded :
      (b : BranchContext D) → HasWellFormedBuffer b → IsDiscarded (discard_branch b)
  unfolding discard_branch
  discard_branch-IsDiscarded b w = record {
    status = refl;
    write_buffer = truncate_zero b.write_buffer w;
    intent_log = IntentLog.truncate_zero b.intent_log;
    savepoints = refl;
  }

  All-discard_branch :
      (branches : List (BranchContext D))
      → All HasWellFormedBuffer branches
      → All IsDiscarded (map discard_branch branches)
  All-discard_branch [] w = tt
  All-discard_branch (b ∷ branches) w =
      (discard_branch-IsDiscarded b w.0, All-discard_branch branches w.1)

  mark_winner_and_losers-All :
      (id : Text) (branches : List (BranchContext D))
      → All HasWellFormedBuffer branches
      → All HasWellFormedBuffer (mark_winner_and_losers id branches)
  unfolding mark_winner_and_losers mark
  mark_winner_and_losers-All id [] w = tt
  mark_winner_and_losers-All id (b ∷ branches) w = (
    elim (Bool-cases (text_eq b.branch_id id)) [ inl e ↦ rw e w.0 | inr e ↦ rw e w.0 ],
    mark_winner_and_losers-All id branches w.1,
  )

  find_branch-All :
      (id : Text) (b : BranchContext D) (branches : List (BranchContext D))
      → All HasWellFormedBuffer branches
      → find_branch id branches ≡ some b
      → HasWellFormedBuffer b
  unfolding find_branch
  find_branch-All id b [] w h = cc h
  find_branch-All id b (c ∷ branches) w h = ground (arith, find_branch-All id b branches w.1, w.0)

  -- Every branch but those under the identifier of the winner is discarded.
  abbrev pub IsSettled : Text → BranchContext D → Type 0
  IsSettled id b = (b.branch_id ≡ id) ⊎ IsDiscarded b

  discard_other-IsSettled :
      (id : Text) (b : BranchContext D) → HasWellFormedBuffer b → IsSettled id (discard_other id b)
  unfolding discard_other
  discard_other-IsSettled id b w = elim (Bool-cases (text_eq b.branch_id id)) [
    | inl e ↦ rw e (inl ((text_eq_iff b.branch_id id).0 e))
    | inr e ↦ rw e (inr (discard_branch-IsDiscarded b w))
  ]

  All-discard_other :
      (id : Text) (branches : List (BranchContext D))
      → All HasWellFormedBuffer branches
      → All (IsSettled id) (map (discard_other id) branches)
  All-discard_other id [] w = tt
  All-discard_other id (b ∷ branches) w =
      (discard_other-IsSettled id b w.0, All-discard_other id branches w.1)

  set_committed-All :
      (id : Text) (branches : List (BranchContext D))
      → All HasWellFormedBuffer branches
      → All HasWellFormedBuffer (set_committed id branches)
  unfolding set_committed
  set_committed-All id [] w = tt
  set_committed-All id (b ∷ branches) w = elim (Bool-cases (text_eq b.branch_id id)) [
    | inl e ↦ rw e w
    | inr e ↦ rw e (w.0, set_committed-All id branches w.1)
  ]

-- The attempt committed: the store has what the log says, and nothing else has changed.
pub record IsCommitted {D : Type 0} (world : World MemoryKvStore) (o : TxnOutcome D MemoryKvStore)
    : Type 0 where
  pub done : o.done ≡ true
  pub status : o.txn.status ≡ committed
  pub branches : All (IsSettled o.txn.winner_branch_id) o.txn.branches
  pub applied : All (IsApplied o.world.store) o.txn.commit_log
  pub others : (j : Text) → NotLogged j o.txn.commit_log → get j o.world.store ≡ get j world.store

-- The attempt failed: no branch holds work any more, and the world is as it was.
pub record IsAborted {D : Type 0} (world : World MemoryKvStore) (o : TxnOutcome D MemoryKvStore)
    : Type 0 where
  pub done : o.done ≡ false
  pub status : o.txn.status ≡ aborted
  pub branches : All IsDiscarded o.txn.branches
  pub world_kept : o.world ≡ world

abbrev pub CommitsOrAborts :
    {D : Type 0} → World MemoryKvStore → TxnOutcome D MemoryKvStore → Type 0
CommitsOrAborts world o = IsCommitted world o ⊎ IsAborted world o

module _ {D : Type 0} (world : World MemoryKvStore) where
  fail-IsAborted :
      (txn : AgentTxnContext D) (result : ValidationResult)
      → All HasWellFormedBuffer txn.branches
      → IsAborted world (fail txn result world)
  unfolding fail abort_transaction
  fail-IsAborted txn result w = record {
    done = refl;
    status = refl;
    branches = All-discard_branch txn.branches w;
    world_kept = refl;
  }

  finish-CommitsOrAborts :
      (txn : AgentTxnContext D) (o : CommitOutcome MemoryKvStore)
      → All HasWellFormedBuffer txn.branches
      → CommitsOrRefuses txn world o
      → CommitsOrAborts world (finish txn o)
  unfolding finish close_transaction fail abort_transaction
  finish-CommitsOrAborts txn o w (inl c) = rw c.done (
      inl (record {
        done = refl;
        status = refl;
        branches = All-discard_other _ _ (set_committed-All txn.winner_branch_id txn.branches w);
        applied = c.applied;
        others = c.others;
      }))
  finish-CommitsOrAborts txn o w (inr (failed, same, log)) =
      rw (failed, same)
        (inr (record {
          done = refl;
          status = refl;
          branches = All-discard_branch txn.branches w;
          world_kept = refl;
        }))

  module _ (fp : Double D) where
    commit_valid-CommitsOrAborts :
        (txn : AgentTxnContext D) (winner : BranchContext D) (result : ValidationResult)
        → All HasWellFormedBuffer txn.branches
        → HasWellFormedBuffer winner
        → (o : TxnOutcome D MemoryKvStore) × (commit_valid fp memory_kv_store txn winner result
              world
            ≡ some o)
          × CommitsOrAborts world o
    unfolding commit_valid
    commit_valid-CommitsOrAborts txn winner result w h = elim (Bool-cases result.success) [
      | inl e ↦
          let txn' : AgentTxnContext D = record txn { validation_result = result } in
          let (o, found, c) = commit_winner_batch txn' world winner (some no_result) h in
          (finish txn' o, rw (found, e) refl, finish-CommitsOrAborts txn' o w c)
      | inr e ↦ (fail txn result world, rw e refl, inr (fail-IsAborted txn result w))
    ]

    commit_found-CommitsOrAborts :
        (txn : AgentTxnContext D) (winner : Option (BranchContext D))
        → All HasWellFormedBuffer txn.branches
        → ((b : BranchContext D) → winner ≡ some b → HasWellFormedBuffer b)
        → (o : TxnOutcome D MemoryKvStore) × (commit_found fp memory_kv_store txn winner world
            ≡ some o)
          × CommitsOrAborts world o
    unfolding commit_found
    commit_found-CommitsOrAborts txn none w h = (_, refl, inr (fail-IsAborted txn _ w))
    commit_found-CommitsOrAborts txn (some winner) w h =
        commit_valid-CommitsOrAborts txn winner _ w (h winner refl)

    select_winner_and_commit_selected :
        (txn : AgentTxnContext D) (id : Text)
        → select_winner fp txn.branches ≡ some id
        → select_winner_and_commit fp memory_kv_store txn world
          ≡ commit_selected fp memory_kv_store txn id world
    unfolding select_winner_and_commit
    select_winner_and_commit_selected txn id e = rw (e, select_winner_and_commit) refl

    -- With at least one branch and well-formed buffers, the attempt through the in-memory store
    -- always returns. Either it commits: the store has what the log says, every other key is as it
    -- was, and each branch that is not under the winner's identifier is discarded; or the
    -- transaction is aborted, every branch is discarded and the world is as it was.
    pub select_winner_and_commit_ends :
        (b : BranchContext D) (branches : List (BranchContext D)) (txn : AgentTxnContext D)
        → txn.branches ≡ b ∷ branches
        → All HasWellFormedBuffer txn.branches
        → (o : TxnOutcome D MemoryKvStore) × (select_winner_and_commit fp memory_kv_store txn world
            ≡ some o)
          × CommitsOrAborts world o
    unfolding commit_selected select_winner
    select_winner_and_commit_ends b branches txn e w =
        let id = (max_element fp b branches).branch_id in
        let w' = mark_winner_and_losers-All id txn.branches w in
        let txn' : AgentTxnContext D = record txn {
          winner_branch_id = id;
          branches = mark_winner_and_losers id txn.branches;
        } in
        let (o, found, c) =
          commit_found-CommitsOrAborts txn' (find_branch id txn'.branches) w'
            (λ b' f. find_branch-All id b' txn'.branches w' f) in
        (o, select_winner_and_commit_selected txn id (ap (select_winner fp) e) ∙ found, c)
