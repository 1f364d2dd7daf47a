-- ===== src/Runtime/Numbered.antt =====
-- The events and the phase of a session under any sequence of the operations of the runtime.
use data_agent_system.Prelude.{
  ◌≡◌, refl, subst, Text, false, List, [], ◌∷◌, ◌++◌, some, IfSome, IfSome-bind, IfSome-intro,
  next_version, codes,
}
use data_agent_system.Prelude.Int.{pos}
use data_agent_system.Intent.Types.{WriteIntent}
use data_agent_system.Cache.Entry.{ObjectType}
use data_agent_system.Storage.Interface.{VersionedKvStore}
use data_agent_system.Branch.Context.{Double, Casts}
use data_agent_system.Fallback.Recovery.{World}
use data_agent_system.Txn.Manager as TxnManager
use data_agent_system.Txn.Manager.{TxnOutcome, select_winner_and_commit}
use data_agent_system.Runtime.Task.{TaskContext}
use data_agent_system.Runtime.Plan.{ExecutionPlan, BranchPlan}
use data_agent_system.Runtime.Session.{
  TaskSession, TaskEventType, record_event, mark_running, mark_committed, mark_aborted,
  NumberedFrom, record_event-NumberedFrom,
}
use data_agent_system.Runtime.Session as Event
use data_agent_system.Runtime.Operations.{
  FallbackCommitRuntimeConfig, read_object, write_object, create_savepoint, rollback_to_savepoint,
  stage_branch, abort_task, configure_fallback_commit, submit_valid_task, create_branches,
}
use data_agent_system.Runtime.Commit.{TaskOutcome, commit_task, count_attempt, commit_outcome}
use data_agent_system.Runtime.Coherent.{
  IsCoherent, Closed, recorded, with_txn, read_object-IsCoherent, write_object-IsCoherent,
  create_savepoint-IsCoherent, rollback_to_savepoint-IsCoherent, stage_branch-IsCoherent,
  abort_task-IsCoherent, close_session-IsCoherent, finish_commit-Closed,
}

module _ {D S : Type 0} (fp : Double D) (casts : Casts D) (kv : VersionedKvStore S)
    (config : FallbackCommitRuntimeConfig) where
  -- A session that is being submitted.
  abbrev Fresh : TaskSession D → Type 0
  Fresh s = NumberedFrom 0 s.events × (s.is_committed ≡ false)

  create_branches-Fresh :
      (plans : List (BranchPlan D)) (s : TaskSession D)
      → Fresh s
      → Fresh (create_branches fp casts kv config plans s)
  unfolding create_branches record_event
  create_branches-Fresh [] s f = f
  create_branches-Fresh (p ∷ plans) s f = create_branches-Fresh plans _ (
    record_event-NumberedFrom Event.create_branch p.branch_id [] p.candidate_id
        (casts.truncate p.initial_priority)
        (record s { txn = TxnManager.create_branch fp p.branch_id s.txn }) f.0,
    f.1,
  )

  submit_valid_task-IsCoherent :
      (task : TaskContext) (plan : ExecutionPlan D)
      → IsCoherent (submit_valid_task fp casts kv config task plan)
  unfolding submit_valid_task mark_running record_event
  submit_valid_task-IsCoherent task plan =
      let begun : TaskSession D = record {
        task = task;
        plan = plan;
        txn =
            configure_fallback_commit fp casts kv config
              (TxnManager.begin fp (codes "txn:" ++ task.task_id) task.task_id);
        commit_attempts = 0;
        is_committed = false;
        events = [];
      } in
      let (numbered, uncommitted) : Fresh (
          create_branches fp casts kv config plan.branch_plans
            (record_event Event.submit_task [] [] task.objective (pos 0) begun)) =
        create_branches-Fresh plan.branch_plans _ (
          record_event-NumberedFrom Event.submit_task [] [] task.objective (pos 0) begun tt,
          refl,
        ) in
      record { numbered = numbered; flag = (λ h. cc (uncommitted, h), λ h. cc h) }

  commit_task-Closed :
      (s : TaskSession D) (world : World S)
      → IsCoherent s
      → IfSome Closed (commit_task fp kv config s world)
  unfolding commit_task count_attempt commit_outcome record_event
  commit_task-Closed s world c =
      let counted =
        recorded Event.commit_attempt [] [] _ _
          (record s { commit_attempts = next_version s.commit_attempts })
          (record { numbered = c.numbered; flag = c.flag }) in
      IfSome-bind (λ o. Unit) Closed _ (select_winner_and_commit fp kv s.txn world)
        (IfSome-intro _ λ o e. tt)
        λ o u.
          finish_commit-Closed o.done _ o.world _
            (close_session-IsCoherent o.done _ (with_txn (count_attempt s) o.txn counted))

  -- The sessions that the operations of the runtime can make, each with the store of its time.
  pub data IsReachable : TaskSession D → Type 0 where
    submits :
        (task : TaskContext) (plan : ExecutionPlan D)
        → IsReachable (submit_valid_task fp casts kv config task plan)
    reads :
        (s : TaskSession D) (store : S) (branch_id object_id : Text)
        → IsReachable s
        → IsReachable (read_object kv store branch_id object_id s).0
    writes :
        (s : TaskSession D) (store : S) (branch_id object_id : Text) (object_type : ObjectType)
        (intent : WriteIntent)
        → IsReachable s
        → IsReachable (write_object kv store branch_id object_id object_type intent s)
    saves :
        (s : TaskSession D) (branch_id savepoint_id : Text)
        → IsReachable s
        → IsReachable (create_savepoint branch_id savepoint_id s)
    rolls_back :
        (s : TaskSession D) (branch_id savepoint_id : Text)
        → IsReachable s
        → IsReachable (rollback_to_savepoint branch_id savepoint_id s).0
    stages :
        (s : TaskSession D) (branch_id : Text) (score : D) (summary : Text)
        → IsReachable s
        → IsReachable (stage_branch casts branch_id score summary s)
    aborts : (s : TaskSession D) → IsReachable s → IsReachable (abort_task s)
    commits :
        (s : TaskSession D) (world : World S) (o : TaskOutcome D S)
        → commit_task fp kv config s world ≡ some o
        → IsReachable s
        → IsReachable o.session

  -- Whatever the operations of the runtime do with a submitted task, in any order and also after a
  -- commit, its events are numbered from 0 in their order and the session has the flag of a
  -- commit just when its task has the phase of one.
  pub IsReachable-IsCoherent : (s : TaskSession D) → IsReachable s → IsCoherent s
  IsReachable-IsCoherent _ (submits task plan) = submit_valid_task-IsCoherent task plan
  IsReachable-IsCoherent _ (reads s store b o r) =
      read_object-IsCoherent kv store b o s (IsReachable-IsCoherent s r)
  IsReachable-IsCoherent _ (writes s store b o t i r) =
      write_object-IsCoherent kv store b o t i s (IsReachable-IsCoherent s r)
  IsReachable-IsCoherent _ (saves s b i r) =
      create_savepoint-IsCoherent b i s (IsReachable-IsCoherent s r)
  IsReachable-IsCoherent _ (rolls_back s b i r) =
      rollback_to_savepoint-IsCoherent b i s (IsReachable-IsCoherent s r)
  IsReachable-IsCoherent _ (stages s b score summary r) =
      stage_branch-IsCoherent casts b score summary s (IsReachable-IsCoherent s r)
  IsReachable-IsCoherent _ (aborts s r) = abort_task-IsCoherent s (IsReachable-IsCoherent s r)
  IsReachable-IsCoherent _ (commits s world o e r) =
      (subst (IfSome Closed) e (commit_task-Closed s world (IsReachable-IsCoherent s r))).0
