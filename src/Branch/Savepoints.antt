-- ===== src/Branch/Savepoints.antt =====
-- Savepoints of a branch: what a rollback restores after any work on the branch.
use data_agent_system.Prelude.{
  Text, true, ◌≡◌, refl, ap, ◌∙◌, arith, List, [], ◌∷◌, ◌++◌, Option, some, text_eq_refl, All, inl,
  inr, Option-cases,
}
use data_agent_system.Intent.Types.{WriteIntent}
use data_agent_system.Intent.Log as IntentLog
use data_agent_system.Cache.Entry.{ObjectType}
use data_agent_system.Cache.Savepoint.{Savepoint}
use data_agent_system.Cache.WriteBuffer as WriteBuffer
use data_agent_system.Cache.WriteBuffer.Undo.{truncate_all, truncate-upsert, size-upsert}
use data_agent_system.Cache.WriteBuffer.Invariant.{
  IsWellFormed, IsWellFormed-IsListed, upsert-IsWellFormed,
}
use data_agent_system.Storage.Interface.{VersionedKvStore}
use data_agent_system.Branch.Context.{BranchContext}
use data_agent_system.Branch.Manager.{
  read_object, create_savepoint, stage_branch, buffer_write, write_entry,
}
use data_agent_system.Branch.Rollback.{find_savepoint, keep_before, restore, rollback_to_savepoint}
use data_agent_system.Branch.Steps.{
  BranchStep, reads, writes, saves, rolls_back, stages, step, run, Lacks, Keeps, savepoint_of,
}
use data_agent_system.Branch.Anchor.{
  Anchored, create_savepoint-Anchored, rollback_to_savepoint-Anchored, find_savepoint-append,
}

module _ {D S : Type 0} (kv : VersionedKvStore S) (start : BranchContext D)
    (earlier : List Savepoint) (sp : Savepoint) where
  buffer_write-Anchored :
      (store : S) (object_id : Text) (object_type : ObjectType) (intent : WriteIntent)
      (b : BranchContext D)
      → Anchored start earlier sp b
      → Anchored start earlier sp (buffer_write kv store object_id object_type intent b)
  unfolding buffer_write
  buffer_write-Anchored store object_id object_type intent b a =
      let entry = write_entry kv store object_id object_type intent b.write_buffer in
      record {
        later = a.later;
        saved = a.saved;
        later_IsLater = a.later_IsLater;
        writes_kept = omega (arith, a.writes_kept, size-upsert entry b.write_buffer);
        intents_kept = omega (arith, a.intents_kept, IntentLog.size-append intent b.intent_log);
        writes_restored =
            truncate-upsert sp.write_log_position entry b.write_buffer
              (IsWellFormed-IsListed b.write_buffer a.well_formed) a.writes_kept
            ∙ a.writes_restored;
        intents_restored =
            IntentLog.truncate-append sp.intent_log_position intent b.intent_log a.intents_kept
            ∙ a.intents_restored;
        well_formed = upsert-IsWellFormed entry b.write_buffer a.well_formed;
      }

  read_object-Anchored :
      (store : S) (object_id : Text) (b : BranchContext D)
      → Anchored start earlier sp b
      → Anchored start earlier sp (read_object kv store object_id b).0
  unfolding read_object
  read_object-Anchored store object_id b a =
      elim (Option-cases (WriteBuffer.find_entry object_id b.write_buffer)) [
        | inl e ↦ rw (e, read_object) a
        | inr (entry, e) ↦ rw (e, read_object) a
      ]

  step-Anchored :
      (s : S × BranchStep D) (b : BranchContext D)
      → Keeps earlier s
      → Anchored start earlier sp b
      → Anchored start earlier sp (step kv s b)
  unfolding step stage_branch
  step-Anchored (store, reads object_id) b h a = read_object-Anchored store object_id b a
  step-Anchored (store, writes object_id object_type intent) b h a =
      buffer_write-Anchored store object_id object_type intent b a
  step-Anchored (store, saves id) b h a = create_savepoint-Anchored start earlier sp id b a
  step-Anchored (store, rolls_back id) b h a =
      rollback_to_savepoint-Anchored start earlier sp id b h a
  step-Anchored (store, stages score summary) b h a = a

  run-Anchored :
      (steps : List (S × BranchStep D)) (b : BranchContext D)
      → All (Keeps earlier) steps
      → Anchored start earlier sp b
      → Anchored start earlier sp (run kv steps b)
  unfolding run
  run-Anchored [] b h a = a
  run-Anchored (s ∷ steps) b h a = run-Anchored steps (step kv s b) h.1 (step-Anchored s b h.0 a)

create_savepoint_anchors :
    {D : Type 0} (id : Text) (b : BranchContext D)
    → IsWellFormed b.write_buffer
    → Anchored b b.savepoints (savepoint_of id b) (create_savepoint id b)
unfolding create_savepoint
create_savepoint_anchors id b w = record {
  later = [];
  saved = refl;
  later_IsLater = tt;
  writes_kept = omega arith;
  intents_kept = omega arith;
  writes_restored = truncate_all _ b.write_buffer (omega arith);
  intents_restored = IntentLog.truncate_all _ b.intent_log (omega arith);
  well_formed = w;
}

rollback_to_savepoint_found :
    {D : Type 0} (start : BranchContext D) (earlier : List Savepoint) (sp : Savepoint)
    (b : BranchContext D)
    → Lacks sp.savepoint_id earlier
    → Anchored start earlier sp b
    → rollback_to_savepoint sp.savepoint_id b ≡ restore (some (sp, earlier ++ sp ∷ [])) b
unfolding rollback_to_savepoint find_savepoint keep_before
rollback_to_savepoint_found start earlier sp b h a =
    ap (λ (o : Option (Savepoint × List Savepoint)). restore o b)
      {y = some (sp, earlier ++ sp ∷ [])}
      (ap (find_savepoint sp.savepoint_id) a.saved
        ∙ find_savepoint-append sp.savepoint_id earlier (sp ∷ a.later) h
        ∙ rw (text_eq_refl sp.savepoint_id))

-- After a savepoint is set under a new identifier on a branch with a well-formed buffer, whatever
-- is read, buffered, saved, staged or rolled back (but to an earlier savepoint), a rollback to it
-- succeeds, gives back the write buffer and the intent log of the time when it was set, and keeps
-- the savepoints up to it.
pub rollback_to_savepoint_restores :
    {D S : Type 0} (kv : VersionedKvStore S) (id : Text) (b : BranchContext D)
    (steps : List (S × BranchStep D))
    → IsWellFormed b.write_buffer
    → Lacks id b.savepoints
    → All (Keeps b.savepoints) steps
    → let (b', done) = rollback_to_savepoint id (run kv steps (create_savepoint id b)) in
      (done ≡ true)
      × (b'.write_buffer ≡ b.write_buffer)
      × (b'.intent_log ≡ b.intent_log)
      × (b'.savepoints ≡ b.savepoints ++ savepoint_of id b ∷ [])
unfolding restore
rollback_to_savepoint_restores kv id b steps w h k =
    let sp = savepoint_of id b in
    let end = run kv steps (create_savepoint id b) in
    let a : Anchored b b.savepoints sp end =
      run-Anchored kv b b.savepoints sp steps (create_savepoint id b) k
        (create_savepoint_anchors id b w) in
    rw (rollback_to_savepoint_found b b.savepoints sp end h a)
      (refl, a.writes_restored, a.intents_restored, refl)
