-- ===== src/Runtime/Verdict.antt =====
-- `RecoverTaskSessionDecision` of runtime/task_recovery.h on the log of a session.
use data_agent_system.Prelude.{
  ◌≡◌, ◌↔◌, arith, ◌≢◌, ◌⊎◌, refl, sym, ap, ◌∙◌, subst, Text, Bool, true, false, ◌||◌, [], some,
  codes, text_eq, is_empty, map, if◌then◌else◌, Bool-cases, inl, inr,
}
use data_agent_system.Runtime.Task.{committed, aborted}
use data_agent_system.Runtime.Session.{TaskSession, commit_attempt, commit_task, abort_task}
use data_agent_system.Runtime.EventReader.{ParsedTaskEventLogArtifact, metadata_value, last_event}
use data_agent_system.Runtime.Decision.{
  TaskRecoveryAction, TaskRecoveryDecision, skip_committed, retry_from_scratch, resume_branch,
  resume_from_savepoint, revalidate_commit, recover_task_session_decision, decide_to_resume,
  find_latest_branch, find_latest_savepoint, ends_with_type, final_branch,
}
use data_agent_system.Runtime.EventRoundTrip.{parsed}
use data_agent_system.Runtime.LogRoundTrip.{logged}
use data_agent_system.Runtime.LogMetadata.{session_artifact, logged-session_artifact}
use data_agent_system.Runtime.Decided.{
  last_branch, last_savepoint, text_of, end_branch, find_latest_branch-last_branch,
  find_latest_savepoint-last_savepoint, final_branch-end_branch,
}
use data_agent_system.Runtime.DecisionLaws.{
  is_committed_phase, is_aborted_phase, last_type, is_commit_task, is_abort_task, is_commit_attempt,
  EndsAs, last_event-EndsAs, logged-is_committed, logged-phase,
}
use data_agent_system.Runtime.EndTests.{
  phase_committed_iff, phase_aborted_iff, commit_task_iff, abort_task_iff, commit_attempt_iff,
}

-- The action, the branch and the savepoint of a decision.
abbrev pub Verdict : Type 0
Verdict = TaskRecoveryAction × Text × Text

abbrev pub verdict : TaskRecoveryDecision → Verdict
verdict d = (d.action, d.resume_branch_id, d.resume_savepoint_id)

abbrev pub resumed_at : Text → Text → Verdict
resumed_at branch_id savepoint_id =
    if is_empty savepoint_id
    then (resume_branch, branch_id, [])
    else (resume_from_savepoint, branch_id, savepoint_id)

abbrev verdict_of : Bool → Bool → Bool → Bool → Bool → Bool → Text → Text → Text → Verdict
verdict_of is_committed phase_committed ends_committed ends_aborted phase_aborted ends_attempt end
      branch_id savepoint_id =
    if is_committed || (phase_committed || ends_committed)
    then (skip_committed, end, [])
    else if ends_aborted
    then (retry_from_scratch, end, [])
    else if phase_aborted
    then (retry_from_scratch, [], [])
    else if ends_attempt
    then (revalidate_commit, [], [])
    else resumed_at branch_id savepoint_id

module _ (path : Text) (a : ParsedTaskEventLogArtifact) where
  decide_to_resume-verdict :
      (b : Bool)
      → let branch_id = find_latest_branch a.events in
        let savepoint_id = find_latest_savepoint branch_id a.events in
        is_empty savepoint_id ≡ b
        → verdict (decide_to_resume path a) ≡ (
            if b
            then (resume_branch, branch_id, [])
            else (resume_from_savepoint, branch_id, savepoint_id))
  unfolding decide_to_resume
  decide_to_resume-verdict true e = rw e refl
  decide_to_resume-verdict false e = rw e refl

  verdict-verdict_of :
      (b₁ b₂ b₃ b₄ b₅ b₆ : Bool) (end branch_id savepoint_id : Text)
      → text_eq (metadata_value a (codes "committed")) (codes "1") ≡ b₁
      → text_eq (metadata_value a (codes "task_phase")) (codes "2") ≡ b₂
      → ends_with_type (codes "COMMIT_TASK") (last_event a.events) ≡ b₃
      → ends_with_type (codes "ABORT_TASK") (last_event a.events) ≡ b₄
      → text_eq (metadata_value a (codes "task_phase")) (codes "3") ≡ b₅
      → ends_with_type (codes "COMMIT_ATTEMPT") (last_event a.events) ≡ b₆
      → final_branch (last_event a.events) ≡ end
      → verdict (decide_to_resume path a) ≡ resumed_at branch_id savepoint_id
      → verdict (recover_task_session_decision path a)
        ≡ verdict_of b₁ b₂ b₃ b₄ b₅ b₆ end branch_id savepoint_id
  unfolding recover_task_session_decision
  verdict-verdict_of true b₂ b₃ b₄ b₅ b₆ l b s e₁ e₂ e₃ e₄ e₅ e₆ e r = rw e₁ (rw e refl)
  verdict-verdict_of false true b₃ b₄ b₅ b₆ l b s e₁ e₂ e₃ e₄ e₅ e₆ e r = rw (e₁, e₂) (rw e refl)
  verdict-verdict_of false false true b₄ b₅ b₆ l b s e₁ e₂ e₃ e₄ e₅ e₆ e r =
      rw (e₁, e₂, e₃) (rw e refl)
  verdict-verdict_of false false false true b₅ b₆ l b s e₁ e₂ e₃ e₄ e₅ e₆ e r =
      rw (e₁, e₂, e₃, e₄) (rw e refl)
  verdict-verdict_of false false false false true b₆ l b s e₁ e₂ e₃ e₄ e₅ e₆ e r =
      rw (e₁, e₂, e₃, e₄, e₅) refl
  verdict-verdict_of false false false false false true l b s e₁ e₂ e₃ e₄ e₅ e₆ e r =
      rw (e₁, e₂, e₃, e₄, e₅, e₆) refl
  verdict-verdict_of false false false false false false l b s e₁ e₂ e₃ e₄ e₅ e₆ e r =
      rw (e₁, e₂, e₃, e₄, e₅, e₆) r

-- The work of a session is over: its flag, its phase or its last event says that it is committed.
abbrev pub IsCommitted : {D : Type 0} → TaskSession D → Type 0
IsCommitted s =
    (s.is_committed ≡ true) ⊎ (s.task.phase ≡ committed) ⊎ (last_type s.events ≡ some commit_task)

-- What there is to do with a session, on which branch and from which savepoint.
pub data Decides {D : Type 0} (s : TaskSession D) (v : Verdict) : Type 0 where
  skips : IsCommitted s → v ≡ (skip_committed, end_branch s.events, []) → Decides s v
  retries :
      ¬ IsCommitted s
      → last_type s.events ≡ some abort_task
      → v ≡ (retry_from_scratch, end_branch s.events, [])
      → Decides s v
  restarts :
      ¬ IsCommitted s
      → last_type s.events ≢ some abort_task
      → s.task.phase ≡ aborted
      → v ≡ (retry_from_scratch, [], [])
      → Decides s v
  revalidates :
      ¬ IsCommitted s
      → s.task.phase ≢ aborted
      → last_type s.events ≡ some commit_attempt
      → v ≡ (revalidate_commit, [], [])
      → Decides s v
  resumes :
      ¬ IsCommitted s
      → s.task.phase ≢ aborted
      → last_type s.events ≢ some abort_task
      → last_type s.events ≢ some commit_attempt
      → (let branch_id = last_branch s.events in
          v ≡ resumed_at branch_id (text_of (last_savepoint branch_id s.events)))
      → Decides s v

module _ {D : Type 0} (s : TaskSession D) where
  IsCommitted-iff :
      ((s.is_committed || (is_committed_phase s.task.phase || is_commit_task (last_type s.events)))
        ≡ true)
      ↔ IsCommitted s
  IsCommitted-iff =
      ground (arith, phase_committed_iff s.task.phase, commit_task_iff (last_type s.events))

  verdict_of-Decides : Decides s (
      verdict_of s.is_committed
        (is_committed_phase s.task.phase)
        (is_commit_task (last_type s.events))
        (is_abort_task (last_type s.events))
        (is_aborted_phase s.task.phase)
        (is_commit_attempt (last_type s.events))
        (end_branch s.events)
        (last_branch s.events)
        (text_of (last_savepoint (last_branch s.events) s.events)))
  verdict_of-Decides =
      let last = last_type s.events in
      let c = s.is_committed || (is_committed_phase s.task.phase || is_commit_task last) in
      elim (Bool-cases c) [
        | inl e ↦ rw e (skips (IsCommitted-iff.0 e) refl)
        | inr e ↦
            let undone : ¬ IsCommitted s = λ h. cc (IsCommitted-iff.1 h, e) in
            elim (Bool-cases (is_abort_task last)) [
              | inl f ↦ rw (e, f) (retries undone ((abort_task_iff last).0 f) refl)
              | inr f ↦
                  let going : last ≢ some abort_task = λ h. cc ((abort_task_iff last).1 h, f) in
                  elim (Bool-cases (is_aborted_phase s.task.phase)) [
                    | inl g ↦
                        rw (e, f, g)
                          (restarts undone going ((phase_aborted_iff s.task.phase).0 g) refl)
                    | inr g ↦
                        let live : s.task.phase ≢ aborted =
                          λ h. cc ((phase_aborted_iff s.task.phase).1 h, g) in
                        elim (Bool-cases (is_commit_attempt last)) [
                          | inl i ↦
                              rw (e, f, g, i)
                                (revalidates undone live ((commit_attempt_iff last).0 i) refl)
                          | inr i ↦
                              rw (e, f, g, i)
                                (resumes undone live going
                                  (λ h. cc ((commit_attempt_iff last).1 h, i)) refl)
                        ]
                  ]
            ]
      ]

  resumed :
      (path : Text)
      → verdict (decide_to_resume path (logged s))
        ≡ resumed_at
            (last_branch s.events)
            (text_of (last_savepoint (last_branch s.events) s.events))
  resumed path =
      let b = find_latest_branch-last_branch s.events in
      decide_to_resume-verdict path (logged s) _ refl
      ∙ ap (λ (b : Text). resumed_at b (find_latest_savepoint b (map parsed s.events))) b
      ∙ ap (resumed_at (last_branch s.events))
          (find_latest_savepoint-last_savepoint (last_branch s.events) s.events)

  pub logged-Decides :
      (path : Text) → Decides s (verdict (recover_task_session_decision path (logged s)))
  unfolding EndsAs
  logged-Decides path =
      let ends = last_event-EndsAs s.events in
      subst (Decides s)
        (sym (
          verdict-verdict_of path (logged s) _ _ _ _ _ _ _ _ _ (logged-is_committed s)
            (logged-phase s).0 ends.0 ends.1 (logged-phase s).1 ends.2
            (final_branch-end_branch s.events) (resumed path)))
        verdict_of-Decides

-- What is decided from the log of a session follows from the session. One that is committed by its
-- flag, its phase or its last event is skipped, with the branch of its last event. One that ends in
-- its abortion is tried again, with the branch of that event, and one that has the phase of an
-- aborted one is tried again with no branch. One that ends in an attempt to commit is validated
-- again. Any other goes on at the branch that an event has named last: from the savepoint that was
-- made last on that branch, and where there is none, or it has no name, from the branch.
pub recover_task_session_decision-Decides :
    {D : Type 0} (path : Text) (s : TaskSession D)
    → Decides s (verdict (recover_task_session_decision path (session_artifact s)))
recover_task_session_decision-Decides path s =
    subst (λ a. Decides s (verdict (recover_task_session_decision path a)))
      (logged-session_artifact s) (logged-Decides s path)

pub skipped :
    {D : Type 0} (s : TaskSession D) (v : Verdict)
    → s.is_committed ≡ true
    → Decides s v
    → v.0 ≡ skip_committed
skipped s v h (skips c e) = ap (λ (v : Verdict). v.0) e
skipped s v h (retries n a e) = absurd (n (inl h))
skipped s v h (restarts n a p e) = absurd (n (inl h))
skipped s v h (revalidates n p a e) = absurd (n (inl h))
skipped s v h (resumes n p a b e) = absurd (n (inl h))
