-- ===== src/Runtime/LogRoundTrip.antt =====
-- The text of a task event log (task_event_log_io.h) and its parser (task_event_log_replay.h).
use data_agent_system.Prelude.{
  ◌≡◌, refl, sym, ap, ◌∙◌, Text, true, false, List, [], ◌∷◌, ◌++◌, some, All, All-map, All-append,
  arith, text_eq, is_empty, map, append_assoc, append-nil, text_eq_refl,
}
use data_agent_system.Prelude.Map.{Map, insert}
use data_agent_system.Log.Escape.{unescape}
use data_agent_system.Log.Lines.{key_value}
use data_agent_system.Log.Lines.Fields.{IsOnLine}
use data_agent_system.Log.Lines.Unlines.{lines_of-unlines}
use data_agent_system.Runtime.Session.{TaskSession, TaskEvent}
use data_agent_system.Runtime.EventWriter.{
  task_event_log_header, events_mark, session_fields, event_text, task_event_log_lines,
  task_event_log_text,
}
use data_agent_system.Runtime.EventReader.{
  ParsedTaskEvent, ParsedTaskEventLogArtifact, parse_event, parse_content, parse_line, parse_lines,
  parse_headed_lines, parse_task_event_log, empty_artifact,
}
use data_agent_system.Runtime.EventRoundTrip.{
  parsed, IsRecordable, parse_event-event_text, event_text-IsOnLine, tab-event_text,
}
use data_agent_system.Log.Lines.Keys.{
  IsField, split_at-key, has_char-key, key_ne_mark, key-is_empty,
}
use data_agent_system.Runtime.LogFields.{session_fields-IsField}

-- The metadata that the lines leave.
unfoldable pub add_fields : List (Text × Text) → Map Text → Map Text
add_fields [] metadata = metadata
add_fields ((key, value) ∷ fields) metadata =
    add_fields fields (insert key (unescape value) metadata)

parse_line_field :
    (key value : Text) (a : ParsedTaskEventLogArtifact)
    → IsField (key, value)
    → parse_line (key_value (key, value)) (false, a)
      ≡ some (false, record a { metadata = insert key (unescape value) a.metadata })
unfolding parse_line parse_content
parse_line_field key value a h =
    rw (key_ne_mark key value events_mark (ground arith), key-is_empty key value)
      (rw (has_char-key key value, split_at-key key value h.0) refl)

parse_lines_fields :
    (fields : List (Text × Text)) (lines : List Text) (a : ParsedTaskEventLogArtifact)
    → All IsField fields
    → parse_lines (map key_value fields ++ lines) (false, a)
      ≡ parse_lines lines (false, record a { metadata = add_fields fields a.metadata })
unfolding parse_lines add_fields
parse_lines_fields [] lines a h = refl
parse_lines_fields ((key, value) ∷ fields) lines a h =
    rw (parse_line_field key value a h.0, parse_lines)
      (parse_lines_fields fields lines
        (record a { metadata = insert key (unescape value) a.metadata }) h.1)

parse_line_event :
    (text : Text) (e : ParsedTaskEvent) (a : ParsedTaskEventLogArtifact)
    → is_empty text ≡ false
    → text_eq text events_mark ≡ false
    → parse_event text ≡ some e
    → parse_line text (true, a) ≡ some (true, record a { events = a.events ++ e ∷ [] })
unfolding parse_line parse_content
parse_line_event text e a n m h = rw (m, n) (rw (h, parse_content) refl)

parse_lines_events :
    (events : List TaskEvent) (a : ParsedTaskEventLogArtifact)
    → All IsRecordable events
    → parse_lines (map event_text events) (true, a)
      ≡ some (true, record a { events = a.events ++ map parsed events })
unfolding parse_lines
parse_lines_events [] a h =
    ap (λ (es : List ParsedTaskEvent). some (true, record a { events = es }))
      (sym (append-nil a.events))
parse_lines_events (e ∷ events) a h =
    rw
      (
        parse_line_event (event_text e) (parsed e) a (tab-event_text e).0
            ((tab-event_text e).1 events_mark (ground arith)) (parse_event-event_text e h.0),
        parse_lines,
      )
      (parse_lines_events events (record a { events = a.events ++ parsed e ∷ [] }) h.1
        ∙ ap (λ (es : List ParsedTaskEvent). some (true, record a { events = es }))
            (append_assoc a.events (parsed e ∷ []) (map parsed events)))

-- What the parser makes of the log of a session.
abbrev pub logged : {D : Type 0} → TaskSession D → ParsedTaskEventLogArtifact
logged s = record { metadata = add_fields (session_fields s) []; events = map parsed s.events }

parse_lines-events_mark :
    (lines : List Text) (a : ParsedTaskEventLogArtifact)
    → parse_lines (events_mark ∷ lines) (false, a) ≡ parse_lines lines (true, a)
unfolding parse_lines parse_line
parse_lines-events_mark lines a = rw (text_eq_refl events_mark) refl

parse_headed_lines-task_event_log_lines :
    {D : Type 0} (s : TaskSession D)
    → All IsRecordable s.events
    → parse_headed_lines (task_event_log_lines s) ≡ some (logged s)
unfolding parse_headed_lines task_event_log_lines
parse_headed_lines-task_event_log_lines s h =
    let a : ParsedTaskEventLogArtifact = record empty_artifact {
      metadata = add_fields (session_fields s) [];
    } in
    rw
      (
        text_eq_refl task_event_log_header,
        parse_lines_fields (session_fields s) (events_mark ∷ map event_text s.events) empty_artifact
            (session_fields-IsField s),
        parse_lines-events_mark (map event_text s.events) a,
        parse_lines_events s.events a h,
      )
      refl

events-IsOnLine : (events : List TaskEvent) → All (All IsOnLine) (map event_text events)
events-IsOnLine [] = tt
events-IsOnLine (e ∷ events) = (event_text-IsOnLine e, events-IsOnLine events)

fields-IsOnLine :
    (fields : List (Text × Text)) → All IsField fields → All (All IsOnLine) (map key_value fields)
fields-IsOnLine [] h = tt
fields-IsOnLine ((key, value) ∷ fields) h = (
  All-append IsOnLine key (b'=' ∷ value) (All-map (λ c k. k.1) key h.0.0) (ground arith, h.0.1),
  fields-IsOnLine fields h.1,
)

task_event_log_lines-IsOnLine :
    {D : Type 0} (s : TaskSession D) → All (All IsOnLine) (task_event_log_lines s)
unfolding task_event_log_lines
task_event_log_lines-IsOnLine s =
    let more : All (All IsOnLine) (events_mark ∷ map event_text s.events) =
      (ground arith, events-IsOnLine s.events) in
    (
      ground arith,
      All-append (All IsOnLine) (map key_value (session_fields s)) _
          (fields-IsOnLine (session_fields s) (session_fields-IsField s)) more,
    )

pub parse_task_event_log-logged :
    {D : Type 0} (s : TaskSession D)
    → All IsRecordable s.events
    → parse_task_event_log (task_event_log_text s) ≡ some (logged s)
unfolding parse_task_event_log task_event_log_text
parse_task_event_log-logged s h =
    ap parse_headed_lines
      (lines_of-unlines (task_event_log_lines s) (task_event_log_lines-IsOnLine s))
    ∙ parse_headed_lines-task_event_log_lines s h
