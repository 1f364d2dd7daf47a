-- ===== src/Fallback/Parser.antt =====
-- `ParseFallbackCommitArtifact` of agent_txn/fallback_commit_log.h, of the content of a file that
-- opens. The artifact that the caller passes in is a new one.
use data_agent_system.Prelude.{
  Text, Bool, true, false, List, [], ◌∷◌, ◌++◌, Option, none, some, length, codes, text_eq,
  is_empty, map, leb, if◌then◌else◌, ◌>>=◌,
}
use data_agent_system.Log.Escape.{unescape, tab, newline}
use data_agent_system.Log.Lines.{lines_of, split_at, next_field, has_char, strtoull}
use data_agent_system.Log.Artifact.{entries_mark}
use data_agent_system.Fallback.Artifact.{
  FallbackCommitArtifact, FallbackCommitEntry, prepared, phase_from_name,
}

abbrev pub fallback_commit_header : Text
fallback_commit_header = codes "DAS_FALLBACK_COMMIT_V1"

abbrev pub default_artifact : FallbackCommitArtifact
default_artifact = record {
  txn_id = [];
  task_id = [];
  phase = prepared;
  applied_count = 0;
  entries = [];
}

-- An entry with its texts still escaped.
unfoldable pub parse_entry : Text → Option FallbackCommitEntry
unfolding next_field strtoull text_eq
parse_entry text = do
  (key, text₁) ← next_field tab text
  (expected_version, text₂) ← next_field tab text₁
  (target_value, text₃) ← next_field tab text₂
  (previous_value, text₄) ← next_field tab text₃
  (previous_version, text₅) ← next_field tab text₄
  (previous_exists, text₆) ← next_field newline text₅
  some (record {
    key = key;
    expected_version = strtoull expected_version;
    target_value = target_value;
    previous_value = previous_value;
    previous_version = strtoull previous_version;
    previous_exists = text_eq previous_exists (codes "1");
  })

unfoldable pub set_field : Text → Text → FallbackCommitArtifact → FallbackCommitArtifact
unfolding strtoull phase_from_name
set_field key value artifact =
    if text_eq key (codes "txn_id")
    then record artifact { txn_id = value }
    else if text_eq key (codes "task_id")
    then record artifact { task_id = value }
    else if text_eq key (codes "phase")
    then record artifact { phase = phase_from_name value }
    else if text_eq key (codes "applied_count")
    then record artifact { applied_count = strtoull value }
    else artifact

-- A line that is neither empty nor the mark, by the flag `in_entries`.
unfoldable pub parse_content : Bool → Text → FallbackCommitArtifact → Option FallbackCommitArtifact
unfolding parse_entry set_field split_at has_char
parse_content false text artifact =
    let (key, value) = split_at b'=' text in
    if has_char b'=' text then some (set_field key value artifact) else none
parse_content true text artifact =
    parse_entry text >>= λ e. some (record artifact { entries = artifact.entries ++ e ∷ [] })

-- One turn of the loop, on the flag and the artifact.
unfoldable pub parse_line :
    Text → Bool × FallbackCommitArtifact → Option (Bool × FallbackCommitArtifact)
unfolding parse_content
parse_line text (in_entries, artifact) =
    if is_empty text
    then some (in_entries, artifact)
    else if text_eq text entries_mark
    then some (true, artifact)
    else parse_content in_entries text artifact >>= λ a. some (in_entries, a)

unfoldable pub parse_lines :
    List Text → Bool × FallbackCommitArtifact → Option (Bool × FallbackCommitArtifact)
parse_lines [] state = some state
parse_lines (text ∷ lines) state = parse_line text state >>= λ s. parse_lines lines s

unfoldable pub unescape_entry : FallbackCommitEntry → FallbackCommitEntry
unfolding unescape
unescape_entry e = record e {
  key = unescape e.key;
  target_value = unescape e.target_value;
  previous_value = unescape e.previous_value;
}

-- The statements behind the loop.
unfoldable pub finish_parse : Bool × FallbackCommitArtifact → Option FallbackCommitArtifact
unfolding unescape_entry
finish_parse (in_entries, artifact) =
    if leb artifact.applied_count (length artifact.entries)
    then some (record artifact {
      txn_id = unescape artifact.txn_id;
      task_id = unescape artifact.task_id;
      entries = map unescape_entry artifact.entries;
    })
    else none

unfoldable pub parse_headed_lines : List Text → Option FallbackCommitArtifact
unfolding parse_lines finish_parse
parse_headed_lines [] = none
parse_headed_lines (text ∷ lines) =
    if text_eq text fallback_commit_header
    then parse_lines lines (false, default_artifact) >>= finish_parse
    else none

unfoldable pub parse_artifact : Text → Option FallbackCommitArtifact
unfolding lines_of parse_headed_lines
parse_artifact content = parse_headed_lines (lines_of content)
