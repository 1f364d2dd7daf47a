-- ===== src/Runtime/Decision.antt =====
-- runtime/task_recovery.h: what is to be done with a task, decided from its event log.
use data_agent_system.Prelude.{
  Text, Bool, false, List, [], ◌∷◌, ◌++◌, Option, none, some, ◌||◌, ◌&&◌, not, codes, text_eq,
  is_empty, reverse, if◌then◌else◌,
}
use data_agent_system.Prelude.Map.{Map}
use data_agent_system.Runtime.Task.{TaskPhase, created, running, committed, aborted}
use data_agent_system.Runtime.Session.{
  TaskEventType, submit_task, create_branch, read, write, savepoint, rollback_to_savepoint,
  stage_branch, commit_attempt, commit_task, abort_task,
}
use data_agent_system.Runtime.EventReader.{
  ParsedTaskEvent, ParsedTaskEventLogArtifact, metadata_value, last_event, for_parsed,
}

pub data TaskRecoveryAction : Type 0 where
  skip_committed retry_from_scratch resume_branch resume_from_savepoint : TaskRecoveryAction
  revalidate_commit : TaskRecoveryAction

pub record TaskRecoveryDecision : Type 0 where
  pub task_id : Text
  pub txn_id : Text
  pub action : TaskRecoveryAction
  pub resume_branch_id : Text
  pub resume_savepoint_id : Text
  pub reason : Text
  pub source_log_path : Text

unfoldable pub task_recovery_action_name : TaskRecoveryAction → Text
task_recovery_action_name skip_committed = codes "SKIP_COMMITTED"
task_recovery_action_name retry_from_scratch = codes "RETRY_FROM_SCRATCH"
task_recovery_action_name resume_branch = codes "RESUME_BRANCH"
task_recovery_action_name resume_from_savepoint = codes "RESUME_FROM_SAVEPOINT"
task_recovery_action_name revalidate_commit = codes "REVALIDATE_COMMIT"

unfoldable pub task_phase_from_persisted_value : Text → TaskPhase
task_phase_from_persisted_value text =
    if text_eq text (codes "1")
    then running
    else if text_eq text (codes "2")
    then committed
    else if text_eq text (codes "3")
    then aborted
    else created

unfoldable pub task_event_type_from_name : Text → TaskEventType
task_event_type_from_name name =
    if text_eq name (codes "SUBMIT_TASK")
    then submit_task
    else if text_eq name (codes "CREATE_BRANCH")
    then create_branch
    else if text_eq name (codes "READ")
    then read
    else if text_eq name (codes "WRITE")
    then write
    else if text_eq name (codes "SAVEPOINT")
    then savepoint
    else if text_eq name (codes "ROLLBACK_TO_SAVEPOINT")
    then rollback_to_savepoint
    else if text_eq name (codes "STAGE_BRANCH")
    then stage_branch
    else if text_eq name (codes "COMMIT_ATTEMPT")
    then commit_attempt
    else if text_eq name (codes "COMMIT_TASK")
    then commit_task
    else if text_eq name (codes "ABORT_TASK")
    then abort_task
    else submit_task

-- `final_event != nullptr && final_event->event_type == name`
unfoldable pub ends_with_type : Text → Option ParsedTaskEvent → Bool
ends_with_type name none = false
ends_with_type name (some e) = text_eq e.event_type name

-- `find_latest_savepoint` and `find_latest_branch`, over the events from the last to the first.
unfoldable pub savepoint_among : Text → List ParsedTaskEvent → Text
savepoint_among branch_id [] = []
savepoint_among branch_id (e ∷ events) =
    let rest = savepoint_among branch_id events in
    if text_eq e.branch_id branch_id && text_eq e.event_type (codes "SAVEPOINT")
    then e.detail
    else rest

unfoldable pub find_latest_savepoint : Text → List ParsedTaskEvent → Text
unfolding savepoint_among
find_latest_savepoint branch_id events = savepoint_among branch_id (reverse events)

unfoldable pub branch_among : List ParsedTaskEvent → Text
branch_among [] = []
branch_among (e ∷ events) =
    let rest = branch_among events in if is_empty e.branch_id then rest else e.branch_id

unfoldable pub find_latest_branch : List ParsedTaskEvent → Text
unfolding branch_among
find_latest_branch events = branch_among (reverse events)

unfoldable pub final_branch : Option ParsedTaskEvent → Text
final_branch none = []
final_branch (some e) = e.branch_id

final_detail : Option ParsedTaskEvent → Text
final_detail none = []
final_detail (some e) = e.detail

-- A decision with its action, its branch and its reason, and no savepoint.
decide : Text → ParsedTaskEventLogArtifact → TaskRecoveryAction → Text → Text → TaskRecoveryDecision
decide path artifact action branch_id reason = record {
  task_id = metadata_value artifact (codes "task_id");
  txn_id = metadata_value artifact (codes "txn_id");
  action = action;
  resume_branch_id = branch_id;
  resume_savepoint_id = [];
  reason = reason;
  source_log_path = path;
}

-- The last part, for a task that was at work on a branch.
unfoldable pub decide_to_resume : Text → ParsedTaskEventLogArtifact → TaskRecoveryDecision
unfolding decide find_latest_branch find_latest_savepoint
decide_to_resume path artifact =
    let branch_id = find_latest_branch artifact.events in
    let savepoint_id = find_latest_savepoint branch_id artifact.events in
    if not (is_empty savepoint_id)
    then record (decide path artifact resume_from_savepoint branch_id
        (codes "resume from latest savepoint " ++ savepoint_id)) {
          resume_savepoint_id = savepoint_id;
        }
    else decide path artifact resume_branch branch_id (
        if is_empty branch_id
        then codes "resume task execution"
        else codes "resume branch execution")

unfoldable pub recover_task_session_decision :
    Text → ParsedTaskEventLogArtifact → TaskRecoveryDecision
unfolding decide decide_to_resume final_branch final_detail ends_with_type metadata_value
recover_task_session_decision path artifact =
    let final_event = last_event artifact.events in
    let task_phase = metadata_value artifact (codes "task_phase") in
    let is_committed = text_eq (metadata_value artifact (codes "committed")) (codes "1") in
    let detail = final_detail final_event in
    let decided = decide path artifact in
    if is_committed
      || (text_eq task_phase (codes "2") || ends_with_type (codes "COMMIT_TASK") final_event)
    then decided skip_committed (final_branch final_event) (codes "task already committed")
    else if ends_with_type (codes "ABORT_TASK") final_event
    then decided retry_from_scratch (final_branch final_event)
        (if is_empty detail then codes "task aborted" else detail)
    else if text_eq task_phase (codes "3")
    then decided retry_from_scratch [] (codes "task phase is aborted")
    else if ends_with_type (codes "COMMIT_ATTEMPT") final_event
    then decided revalidate_commit [] (codes "commit attempt recorded without terminal outcome")
    else decide_to_resume path artifact

unfoldable pub recover_task_session_decisions : Map Text → List Text → List TaskRecoveryDecision
unfolding for_parsed recover_task_session_decision
recover_task_session_decisions = for_parsed recover_task_session_decision
