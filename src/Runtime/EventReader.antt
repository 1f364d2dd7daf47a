-- ===== src/Runtime/EventReader.antt =====
-- runtime/task_event_log_replay.h: the text of a task event log is read.
use data_agent_system.Prelude.{
  ℕ, ◌+◌, Text, Bool, true, false, List, [], ◌∷◌, ◌++◌, Option, none, some, length, codes, text_eq,
  is_empty, if◌then◌else◌, ◌>>=◌,
}
use data_agent_system.Prelude.Int.{ℤ}
use data_agent_system.Prelude.Map.{Map, find, insert}
use data_agent_system.Log.Escape.{unescape, tab}
use data_agent_system.Log.Lines.{lines_of, split_at, split_all, has_char, strtoull, strtoll}
use data_agent_system.Runtime.EventWriter.{task_event_log_header, events_mark}

pub record ParsedTaskEvent : Type 0 where
  pub sequence_number : ℕ
  pub event_type : Text
  pub branch_id : Text
  pub object_id : Text
  pub numeric_value : ℤ
  pub detail : Text

pub record ParsedTaskEventLogArtifact : Type 0 where
  pub metadata : Map Text
  pub events : List ParsedTaskEvent

pub record ReplayedTaskSessionState : Type 0 where
  pub task_id : Text
  pub txn_id : Text
  pub task_phase : Text
  pub commit_attempts : ℕ
  pub is_committed : Bool
  pub event_count : ℕ
  pub final_event_type : Text
  pub final_branch_id : Text
  pub write_event_count : ℕ
  pub read_event_count : ℕ
  pub source_log_path : Text

-- The same text as that of the commit logs.
abbrev pub unescape_task_event_log_text : Text → Text
unescape_task_event_log_text = unescape

-- Exactly six parts.
unfoldable pub event_of_parts : List Text → Option ParsedTaskEvent
unfolding strtoull strtoll
event_of_parts
      (sequence_number ∷ event_type ∷ branch_id ∷ object_id ∷ numeric_value ∷ detail ∷ []) =
    some (record {
      sequence_number = strtoull sequence_number;
      event_type = event_type;
      branch_id = unescape_task_event_log_text branch_id;
      object_id = unescape_task_event_log_text object_id;
      numeric_value = strtoll numeric_value;
      detail = unescape_task_event_log_text detail;
    })
event_of_parts _ = none

unfoldable pub parse_event : Text → Option ParsedTaskEvent
unfolding split_all event_of_parts
parse_event text = event_of_parts (split_all tab text)

-- A line that is neither empty nor the mark, by the flag `in_events`.
unfoldable pub parse_content :
    Bool → Text → ParsedTaskEventLogArtifact → Option ParsedTaskEventLogArtifact
unfolding split_at has_char parse_event
parse_content false text artifact =
    let (key, value) = split_at b'=' text in
    if has_char b'=' text
    then some (record artifact {
      metadata = insert key (unescape_task_event_log_text value) artifact.metadata;
    })
    else none
parse_content true text artifact =
    parse_event text >>= λ e. some (record artifact { events = artifact.events ++ e ∷ [] })

-- One turn of the loop, on the flag and the artifact.
unfoldable pub parse_line :
    Text → Bool × ParsedTaskEventLogArtifact → Option (Bool × ParsedTaskEventLogArtifact)
unfolding parse_content
parse_line text (in_events, artifact) =
    if text_eq text events_mark
    then some (true, artifact)
    else if is_empty text
    then some (in_events, artifact)
    else parse_content in_events text artifact >>= λ a. some (in_events, a)

unfoldable pub parse_lines :
    List Text → Bool × ParsedTaskEventLogArtifact → Option (Bool × ParsedTaskEventLogArtifact)
unfolding parse_line
parse_lines [] state = some state
parse_lines (text ∷ lines) state = parse_line text state >>= λ s. parse_lines lines s

abbrev pub empty_artifact : ParsedTaskEventLogArtifact
empty_artifact = record { metadata = []; events = [] }

unfoldable pub parse_headed_lines : List Text → Option ParsedTaskEventLogArtifact
unfolding parse_lines
parse_headed_lines [] = none
parse_headed_lines (text ∷ lines) =
    if text_eq text task_event_log_header
    then (parse_lines lines (false, empty_artifact) >>= λ s. some s.1)
    else none

unfoldable pub parse_task_event_log : Text → Option ParsedTaskEventLogArtifact
unfolding lines_of parse_headed_lines
parse_task_event_log content = parse_headed_lines (lines_of content)

-- `ParseTaskEventLogArtifact`: `none` for a file that does not open or does not parse.
unfoldable pub parse_task_event_log_artifact : Map Text → Text → Option ParsedTaskEventLogArtifact
unfolding parse_task_event_log
parse_task_event_log_artifact files path = find path files >>= parse_task_event_log

text_or_empty : Option Text → Text
text_or_empty none = []
text_or_empty (some text) = text

-- `artifact.metadata[key]` and the `metadata_value` of the recovery: no text for a missing key.
unfoldable pub metadata_value : ParsedTaskEventLogArtifact → Text → Text
unfolding text_or_empty
metadata_value artifact key = text_or_empty (find key artifact.metadata)

unfoldable pub last_event : List ParsedTaskEvent → Option ParsedTaskEvent
last_event [] = none
last_event (e ∷ []) = some e
last_event (e ∷ f ∷ events) = last_event (f ∷ events)

unfoldable pub count_type : Text → List ParsedTaskEvent → ℕ
count_type name [] = 0
count_type name (e ∷ events) =
    let rest = count_type name events in if text_eq e.event_type name then rest + 1 else rest

final_event_type : Option ParsedTaskEvent → Text
final_event_type none = []
final_event_type (some e) = e.event_type

final_branch_id : Option ParsedTaskEvent → Text
final_branch_id none = []
final_branch_id (some e) = e.branch_id

unfoldable pub replay_artifact : Text → ParsedTaskEventLogArtifact → ReplayedTaskSessionState
unfolding metadata_value last_event count_type final_event_type final_branch_id strtoull text_eq
replay_artifact path artifact = record {
  task_id = metadata_value artifact (codes "task_id");
  txn_id = metadata_value artifact (codes "txn_id");
  task_phase = metadata_value artifact (codes "task_phase");
  commit_attempts = strtoull (metadata_value artifact (codes "commit_attempts"));
  is_committed = text_eq (metadata_value artifact (codes "committed")) (codes "1");
  event_count = length artifact.events;
  final_event_type = final_event_type (last_event artifact.events);
  final_branch_id = final_branch_id (last_event artifact.events);
  write_event_count = count_type (codes "WRITE") artifact.events;
  read_event_count = count_type (codes "READ") artifact.events;
  source_log_path = path;
}

-- What the logs that parse make of `f`, in their order.
unfoldable pub for_parsed :
    {A : Type 0} → (Text → ParsedTaskEventLogArtifact → A) → Map Text → List Text → List A
unfolding parse_task_event_log_artifact
for_parsed f files [] = []
for_parsed f files (path ∷ paths) =
    let rest = for_parsed f files paths in
    elim (parse_task_event_log_artifact files path) [
      | none ↦ rest
      | some artifact ↦ f path artifact ∷ rest
    ]

unfoldable pub replay_task_event_log_artifacts :
    Map Text → List Text → List ReplayedTaskSessionState
unfolding for_parsed replay_artifact
replay_task_event_log_artifacts = for_parsed replay_artifact
