-- ===== src/Tests/Buffers.antt =====
-- Buffers and branches at concrete inputs.
use data_agent_system.Prelude.{ℕ, ◌≡◌, true, some, List, [], ◌∷◌, ◌++◌, codes, All, Among}
use data_agent_system.Cache.Entry.{ObjectCacheEntry, generic}
use data_agent_system.Cache.WriteBuffer as WriteBuffer
use data_agent_system.Cache.WriteBuffer.Writes.{
  upsert_all, placed, ordered_entries-upsert_all, truncate-upsert_all,
}
use data_agent_system.Storage.Memory.{MemoryKvStore, memory_kv_store}
use data_agent_system.Branch.Context.{BranchContext}
use data_agent_system.Branch.Manager.{create_savepoint, select_winner}
use data_agent_system.Branch.Rollback.{rollback_to_savepoint}
use data_agent_system.Branch.Steps.{BranchStep, writes, reads, rolls_back, saves, run, savepoint_of}
use data_agent_system.Branch.Savepoints.{rollback_to_savepoint_restores}
use data_agent_system.Branch.Winner.{select_winner_best, NotAbove}
use data_agent_system.Tests.Data.{
  branch, empty_branch, note, grown, entry_from, note_buffer_ok, append_intent, score,
  score_IsScoreOrder, store,
}

-- Two writes of the note with one of another object between them.
abbrev writes_of_two : List ObjectCacheEntry
writes_of_two =
    entry_from (codes "ab") (codes "abc") ∷ record grown { object_id = codes "other" } ∷ grown ∷ []

ordered_entries-upsert_all_example :
    WriteBuffer.ordered_entries (upsert_all writes_of_two WriteBuffer.empty)
    ≡ some (placed writes_of_two [])
ordered_entries-upsert_all_example = ordered_entries-upsert_all writes_of_two

truncate-upsert_all_example :
    WriteBuffer.truncate 1 (upsert_all writes_of_two (upsert_all (grown ∷ []) WriteBuffer.empty))
    ≡ upsert_all (grown ∷ []) WriteBuffer.empty
truncate-upsert_all_example = truncate-upsert_all (grown ∷ []) writes_of_two

abbrev work : List (MemoryKvStore × BranchStep ℕ)
work =
    (store, writes note generic append_intent)
    ∷ (store, saves (codes "later"))
    ∷ (store, reads (codes "other"))
    ∷ (store, rolls_back (codes "later"))
    ∷ []

rollback_to_savepoint_restores_example :
    let (b', done) =
      rollback_to_savepoint
        (codes "sp")
        (run memory_kv_store work (create_savepoint (codes "sp") branch)) in
    (done ≡ true)
    × (b'.write_buffer ≡ branch.write_buffer)
    × (b'.intent_log ≡ branch.intent_log)
    × (b'.savepoints ≡ branch.savepoints ++ savepoint_of (codes "sp") branch ∷ [])
rollback_to_savepoint_restores_example =
    rollback_to_savepoint_restores memory_kv_store (codes "sp") branch work note_buffer_ok tt
      (tt, (tt, (tt, (tt, tt))))

select_winner_best_example :
    (w : BranchContext ℕ) × (select_winner score (empty_branch ∷ branch ∷ []) ≡ some w.branch_id)
    × Among w (empty_branch ∷ branch ∷ [])
    × All (NotAbove score score_IsScoreOrder w) (empty_branch ∷ branch ∷ [])
select_winner_best_example = select_winner_best score score_IsScoreOrder empty_branch (branch ∷ [])
