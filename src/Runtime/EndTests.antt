-- ===== src/Runtime/EndTests.antt =====
-- The tests on the phase of a task and on its last event, which `RecoverTaskSessionDecision` makes.
use data_agent_system.Prelude.{◌≡◌, ◌↔◌, refl, ap, true, Option, none, some}
use data_agent_system.Runtime.Task.{TaskPhase, created, running, committed, aborted}
use data_agent_system.Runtime.Session.{
  TaskEventType, submit_task, create_branch, read, write, savepoint, rollback_to_savepoint,
  stage_branch, commit_attempt, commit_task, abort_task,
}
use data_agent_system.Runtime.DecisionLaws.{
  is_committed_phase, is_aborted_phase, is_commit_task, is_abort_task, is_commit_attempt,
}

pub phase_committed_iff :
    (phase : TaskPhase) → (is_committed_phase phase ≡ true) ↔ (phase ≡ committed)
phase_committed_iff created = (λ h. absurd (cc h), λ h. absurd (cc h))
phase_committed_iff running = (λ h. absurd (cc h), λ h. absurd (cc h))
phase_committed_iff committed = (λ h. refl, λ h. refl)
phase_committed_iff aborted = (λ h. absurd (cc h), λ h. absurd (cc h))

pub phase_aborted_iff : (phase : TaskPhase) → (is_aborted_phase phase ≡ true) ↔ (phase ≡ aborted)
phase_aborted_iff created = (λ h. absurd (cc h), λ h. absurd (cc h))
phase_aborted_iff running = (λ h. absurd (cc h), λ h. absurd (cc h))
phase_aborted_iff committed = (λ h. absurd (cc h), λ h. absurd (cc h))
phase_aborted_iff aborted = (λ h. refl, λ h. refl)

pub commit_task_found : (o : Option TaskEventType) → is_commit_task o ≡ true → o ≡ some commit_task
commit_task_found none h = cc h
commit_task_found (some submit_task) h = cc h
commit_task_found (some create_branch) h = cc h
commit_task_found (some read) h = cc h
commit_task_found (some write) h = cc h
commit_task_found (some savepoint) h = cc h
commit_task_found (some rollback_to_savepoint) h = cc h
commit_task_found (some stage_branch) h = cc h
commit_task_found (some commit_attempt) h = cc h
commit_task_found (some commit_task) h = refl
commit_task_found (some abort_task) h = cc h

pub commit_task_iff :
    (o : Option TaskEventType) → (is_commit_task o ≡ true) ↔ (o ≡ some commit_task)
commit_task_iff o = (commit_task_found o, λ h. ap is_commit_task h)

pub abort_task_found : (o : Option TaskEventType) → is_abort_task o ≡ true → o ≡ some abort_task
abort_task_found none h = cc h
abort_task_found (some submit_task) h = cc h
abort_task_found (some create_branch) h = cc h
abort_task_found (some read) h = cc h
abort_task_found (some write) h = cc h
abort_task_found (some savepoint) h = cc h
abort_task_found (some rollback_to_savepoint) h = cc h
abort_task_found (some stage_branch) h = cc h
abort_task_found (some commit_attempt) h = cc h
abort_task_found (some commit_task) h = cc h
abort_task_found (some abort_task) h = refl

pub abort_task_iff : (o : Option TaskEventType) → (is_abort_task o ≡ true) ↔ (o ≡ some abort_task)
abort_task_iff o = (abort_task_found o, λ h. ap is_abort_task h)

pub commit_attempt_found :
    (o : Option TaskEventType) → is_commit_attempt o ≡ true → o ≡ some commit_attempt
commit_attempt_found none h = cc h
commit_attempt_found (some submit_task) h = cc h
commit_attempt_found (some create_branch) h = cc h
commit_attempt_found (some read) h = cc h
commit_attempt_found (some write) h = cc h
commit_attempt_found (some savepoint) h = cc h
commit_attempt_found (some rollback_to_savepoint) h = cc h
commit_attempt_found (some stage_branch) h = cc h
commit_attempt_found (some commit_attempt) h = refl
commit_attempt_found (some commit_task) h = cc h
commit_attempt_found (some abort_task) h = cc h

pub commit_attempt_iff :
    (o : Option TaskEventType) → (is_commit_attempt o ≡ true) ↔ (o ≡ some commit_attempt)
commit_attempt_iff o = (commit_attempt_found o, λ h. ap is_commit_attempt h)
