-- ===== src/Runtime/Coherent.antt =====
-- The events and the phase of a session under the operations of the runtime, one by one.
use data_agent_system.Prelude.{
  ◌≡◌, ◌↔◌, refl, Text, Bool, true, false, [], Bool-cases, inl, inr, IfSome, is_empty,
}
use data_agent_system.Prelude.Int.{ℤ}
use data_agent_system.Intent.Types.{WriteIntent}
use data_agent_system.Cache.Entry.{ObjectType}
use data_agent_system.Storage.Interface.{VersionedKvStore}
use data_agent_system.Branch.Context.{Casts}
use data_agent_system.Fallback.Disk.{Disk}
use data_agent_system.Fallback.Recovery.{World}
use data_agent_system.Runtime.Task.{set_metadata, committed}
use data_agent_system.Runtime.Session.{
  TaskSession, TaskEventType, record_event, mark_running, mark_committed, mark_aborted,
  NumberedFrom, record_event-NumberedFrom,
}
use data_agent_system.Runtime.Session as Event
use data_agent_system.Runtime.Operations.{
  Result, threw, returned, read_object, write_object, create_savepoint, rollback_to_savepoint,
  stage_branch, abort_task, rollback_txn,
}
use data_agent_system.Runtime.Commit.{TaskOutcome, close_session, note_maintenance, finish_commit}

-- The events are numbered from 0 in their order, and the flag says whether the phase is committed.
pub record IsCoherent {D : Type 0} (s : TaskSession D) : Type 0 where
  pub numbered : NumberedFrom 0 s.events
  pub flag : (s.is_committed ≡ true) ↔ (s.task.phase ≡ committed)

module _ {D : Type 0} where
  pub recorded :
      (type : TaskEventType) (branch_id object_id detail : Text) (value : ℤ) (s : TaskSession D)
      → IsCoherent s
      → IsCoherent (record_event type branch_id object_id detail value s)
  recorded type branch_id object_id detail value s c = record {
    numbered = record_event-NumberedFrom type branch_id object_id detail value s c.numbered;
    flag = unfold record_event in c.flag;
  }

  pub with_txn : (s : TaskSession D) (txn : _) → IsCoherent s → IsCoherent (record s { txn = txn })
  with_txn s txn c = record { numbered = c.numbered; flag = c.flag }

  pub read_object-IsCoherent :
      {S : Type 0} (kv : VersionedKvStore S) (store : S) (branch_id object_id : Text)
      (s : TaskSession D)
      → IsCoherent s
      → IsCoherent (read_object kv store branch_id object_id s).0
  unfolding read_object
  read_object-IsCoherent kv store branch_id object_id s c =
      recorded Event.read branch_id object_id _ _ _ (with_txn s _ c)

  pub write_object-IsCoherent :
      {S : Type 0} (kv : VersionedKvStore S) (store : S) (branch_id object_id : Text)
      (object_type : ObjectType) (intent : WriteIntent) (s : TaskSession D)
      → IsCoherent s
      → IsCoherent (write_object kv store branch_id object_id object_type intent s)
  unfolding write_object
  write_object-IsCoherent kv store branch_id object_id object_type intent s c =
      recorded Event.write branch_id object_id _ _ _ (with_txn s _ c)

  pub create_savepoint-IsCoherent :
      (branch_id savepoint_id : Text) (s : TaskSession D)
      → IsCoherent s
      → IsCoherent (create_savepoint branch_id savepoint_id s)
  unfolding create_savepoint
  create_savepoint-IsCoherent branch_id savepoint_id s c =
      recorded Event.savepoint branch_id [] savepoint_id _ _ (with_txn s _ c)

  pub rollback_to_savepoint-IsCoherent :
      (branch_id savepoint_id : Text) (s : TaskSession D)
      → IsCoherent s
      → IsCoherent (rollback_to_savepoint branch_id savepoint_id s).0
  unfolding rollback_to_savepoint
  rollback_to_savepoint-IsCoherent branch_id savepoint_id s c =
      let (txn, rolled_back) = rollback_txn branch_id savepoint_id s.txn in
      elim (Bool-cases rolled_back) [
        | inl e ↦
            rw e (
              recorded Event.rollback_to_savepoint branch_id [] savepoint_id _ _ (with_txn s txn c))
        | inr e ↦ rw e (with_txn s txn c)
      ]

  pub stage_branch-IsCoherent :
      (casts : Casts D) (branch_id : Text) (score : D) (summary : Text) (s : TaskSession D)
      → IsCoherent s
      → IsCoherent (stage_branch casts branch_id score summary s)
  unfolding stage_branch
  stage_branch-IsCoherent casts branch_id score summary s c =
      recorded Event.stage_branch branch_id [] summary _ _ (with_txn s _ c)

  pub abort_task-IsCoherent : (s : TaskSession D) → IsCoherent s → IsCoherent (abort_task s)
  unfolding abort_task mark_aborted
  abort_task-IsCoherent s c =
      recorded Event.abort_task [] [] _ _ _
        (record { numbered = c.numbered; flag = (λ h. cc h, λ h. cc h) })

  pub close_session-IsCoherent :
      (done : Bool) (s : TaskSession D)
      → IsCoherent s
      → IsCoherent (close_session done s) × ((close_session done s).is_committed ≡ done)
  unfolding close_session mark_committed mark_aborted record_event
  close_session-IsCoherent true s c = (
    recorded Event.commit_task _ [] _ _ _
        (record { numbered = c.numbered; flag = (λ h. refl, λ h. refl) }),
    refl,
  )
  close_session-IsCoherent false s c = (
    recorded Event.abort_task _ [] _ _ _
        (record { numbered = c.numbered; flag = (λ h. cc h, λ h. cc h) }),
    refl,
  )

  -- A session that is coherent and that says whether the commit succeeded.
  abbrev pub Closed : {S : Type 0} → TaskOutcome D S → Type 0
  Closed o = IsCoherent o.session × (o.session.is_committed ≡ o.done)

  pub note_maintenance-IsCoherent :
      (finalized done : Bool) (s : TaskSession D)
      → IsCoherent s × (s.is_committed ≡ done)
      → IsCoherent (note_maintenance finalized s)
        × ((note_maintenance finalized s).is_committed ≡ done)
  unfolding note_maintenance set_metadata
  note_maintenance-IsCoherent finalized done s (c, d) =
      elim (Bool-cases (is_empty s.txn.fallback_commit.artifact_path)) [
        | inl e ↦ rw e (c, d)
        | inr e ↦ rw e (record { numbered = c.numbered; flag = c.flag }, d)
      ]

  pub finish_commit-Closed :
      {S : Type 0} (done : Bool) (s : TaskSession D) (world : World S)
      (finalized : Disk × Result Bool)
      → IsCoherent s × (s.is_committed ≡ done)
      → IfSome Closed (finish_commit done s world finalized)
  unfolding finish_commit
  finish_commit-Closed done s world (d, threw message) h = tt
  finish_commit-Closed done s world (d, returned finalized) h =
      note_maintenance-IsCoherent finalized done s h
