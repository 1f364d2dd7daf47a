-- ===== src/Branch/Anchor.antt =====
-- What work on a branch keeps of the state at a savepoint.
use data_agent_system.Prelude.{
  ℕ, Text, Bool, true, false, ◌≡◌, ◌≤◌, refl, ap, sym, ◌∙◌, arith, List, [], ◌∷◌, ◌++◌, Option,
  none, some, text_eq, All, if◌then◌else◌, subst, dec_le, append_assoc, All-append,
}
use data_agent_system.Intent.Log as IntentLog
use data_agent_system.Cache.Savepoint.{Savepoint}
use data_agent_system.Cache.WriteBuffer as WriteBuffer
use data_agent_system.Cache.WriteBuffer.Undo.{truncate_all, truncate-truncate, size-truncate}
use data_agent_system.Cache.WriteBuffer.Invariant.{IsWellFormed, truncate-IsWellFormed}
use data_agent_system.Branch.Context.{BranchContext}
use data_agent_system.Branch.Manager.{create_savepoint}
use data_agent_system.Branch.Rollback.{find_savepoint, keep_before, restore, rollback_to_savepoint}
use data_agent_system.Branch.Steps.{Lacks, savepoint_of}

abbrev pub IsLater : Savepoint → Savepoint → Type 0
IsLater sp later =
    (sp.write_log_position ≤ later.write_log_position)
    × (sp.intent_log_position ≤ later.intent_log_position)

pub find_savepoint-append :
    (id : Text) (earlier savepoints : List Savepoint)
    → Lacks id earlier
    → find_savepoint id (earlier ++ savepoints) ≡ keep_before earlier (find_savepoint id savepoints)
unfolding find_savepoint
find_savepoint-append id [] savepoints h = ground arith
find_savepoint-append id (sp ∷ earlier) savepoints h =
    rw h.0 (rw (find_savepoint-append id earlier savepoints h.1) (ground arith))

abbrev AllFound : (Savepoint → Type 0) → Option (Savepoint × List Savepoint) → Type 0
AllFound P none = Unit
AllFound P (some (sp, kept)) = P sp × All P kept

-- The savepoint that is found is one of the list, and so are those that are kept.
find_savepoint-AllFound :
    (P : Savepoint → Type 0) (id : Text) (savepoints : List Savepoint)
    → All P savepoints
    → AllFound P (find_savepoint id savepoints)
unfolding find_savepoint
find_savepoint-AllFound P id [] h = tt
find_savepoint-AllFound P id (s ∷ savepoints) h =
    cases (text_eq s.savepoint_id id) (find_savepoint id savepoints)
      (find_savepoint-AllFound P id savepoints h.1)
  where
    cases :
        (b : Bool) (o : Option (Savepoint × List Savepoint))
        → AllFound P o
        → AllFound P (if b then some (s, s ∷ []) else keep_before (s ∷ []) o)
    cases true o f = (h.0, (h.0, tt))
    cases false none f = tt
    cases false (some (sp, kept)) f = (f.0, (h.0, f.1))

-- Work on a branch after the savepoint `sp`, which stands behind the savepoints `earlier`.
pub record IsAnchored {D : Type 0} (start : BranchContext D) (earlier : List Savepoint)
    (sp : Savepoint) (savepoints : List Savepoint) (write_buffer : WriteBuffer.WriteBuffer)
    (intent_log : IntentLog.IntentLog) : Type 0 where
  pub later : List Savepoint
  pub saved : savepoints ≡ earlier ++ sp ∷ later
  pub later_IsLater : All (IsLater sp) later
  pub writes_kept : sp.write_log_position ≤ WriteBuffer.size write_buffer
  pub intents_kept : sp.intent_log_position ≤ IntentLog.size intent_log
  pub writes_restored : WriteBuffer.truncate sp.write_log_position write_buffer ≡ start.write_buffer
  pub intents_restored : IntentLog.truncate sp.intent_log_position intent_log ≡ start.intent_log
  pub well_formed : IsWellFormed write_buffer

module _ {D : Type 0} (start : BranchContext D) (earlier : List Savepoint) (sp : Savepoint) where
  abbrev pub Anchored : BranchContext D → Type 0
  Anchored b = IsAnchored start earlier sp b.savepoints b.write_buffer b.intent_log

  pub create_savepoint-Anchored :
      (id : Text) (b : BranchContext D) → Anchored b → Anchored (create_savepoint id b)
  unfolding create_savepoint
  create_savepoint-Anchored id b a = record {
    later = a.later ++ savepoint_of id b ∷ [];
    saved =
        ap (λ (l : List Savepoint). l ++ savepoint_of id b ∷ []) a.saved
        ∙ append_assoc earlier (sp ∷ a.later) _;
    later_IsLater =
        All-append (IsLater sp) a.later _ a.later_IsLater ((a.writes_kept, a.intents_kept), tt);
    writes_kept = a.writes_kept;
    intents_kept = a.intents_kept;
    writes_restored = a.writes_restored;
    intents_restored = a.intents_restored;
    well_formed = a.well_formed;
  }

  writes_kept_lem :
      (n : ℕ) (buffer : WriteBuffer.WriteBuffer)
      → sp.write_log_position ≤ n
      → sp.write_log_position ≤ WriteBuffer.size buffer
      → sp.write_log_position ≤ WriteBuffer.size (WriteBuffer.truncate n buffer)
  writes_kept_lem n buffer h k = elim (dec_le n (WriteBuffer.size buffer)) [
    | yes p ↦ rw (size-truncate n buffer p) h
    | no p ↦ rw (truncate_all n buffer (omega arith)) k
  ]

  intents_kept_lem :
      (n : ℕ) (log : IntentLog.IntentLog)
      → sp.intent_log_position ≤ n
      → sp.intent_log_position ≤ IntentLog.size log
      → sp.intent_log_position ≤ IntentLog.size (IntentLog.truncate n log)
  intents_kept_lem n log h k = elim (dec_le n (IntentLog.size log)) [
    | yes p ↦ rw (IntentLog.size-truncate n log p) h
    | no p ↦ rw (IntentLog.truncate_all n log (omega arith)) k
  ]

  -- Going back to `sp` or to a later savepoint.
  restore-Anchored :
      (found : Savepoint) (kept : List Savepoint) (b : BranchContext D)
      → IsLater sp found
      → All (IsLater sp) kept
      → Anchored b
      → Anchored (restore (some (found, earlier ++ sp ∷ kept)) b).0
  unfolding restore
  restore-Anchored found kept b l ls a = record {
    later = kept;
    saved = refl;
    later_IsLater = ls;
    writes_kept = writes_kept_lem found.write_log_position b.write_buffer l.0 a.writes_kept;
    intents_kept = intents_kept_lem found.intent_log_position b.intent_log l.1 a.intents_kept;
    writes_restored =
        truncate-truncate sp.write_log_position found.write_log_position b.write_buffer l.0
        ∙ a.writes_restored;
    intents_restored =
        IntentLog.truncate-truncate sp.intent_log_position found.intent_log_position b.intent_log
          l.1
        ∙ a.intents_restored;
    well_formed = truncate-IsWellFormed found.write_log_position b.write_buffer a.well_formed;
  }

  restore_found-Anchored :
      (hit : Bool) (o : Option (Savepoint × List Savepoint)) (b : BranchContext D)
      → AllFound (IsLater sp) o
      → Anchored b
      → Anchored
          (restore
            (keep_before earlier (if hit then some (sp, sp ∷ []) else keep_before (sp ∷ []) o))
            b).0
  unfolding keep_before restore
  restore_found-Anchored true o b f a = restore-Anchored sp [] b (omega arith) tt a
  restore_found-Anchored false none b f a = a
  restore_found-Anchored false (some (found, kept)) b f a = restore-Anchored found kept b f.0 f.1 a

  pub rollback_to_savepoint-Anchored :
      (id : Text) (b : BranchContext D)
      → Lacks id earlier
      → Anchored b
      → Anchored (rollback_to_savepoint id b).0
  unfolding rollback_to_savepoint find_savepoint
  rollback_to_savepoint-Anchored id b h a =
      subst (λ (o : Option (Savepoint × List Savepoint)). Anchored (restore o b).0)
        (sym (ap (find_savepoint id) a.saved ∙ find_savepoint-append id earlier (sp ∷ a.later) h))
        (restore_found-Anchored (text_eq sp.savepoint_id id) (find_savepoint id a.later) b
          (find_savepoint-AllFound (IsLater sp) id a.later a.later_IsLater) a)
