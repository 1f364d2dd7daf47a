-- ===== src/Log/Artifact.antt =====
-- agent_txn/commit_log_io.h and `ParseCommitLogArtifact` of agent_txn/commit_log_replay.h: the text
-- of a commit log. A stream's digits of a `double` are a parameter.
pub mod Fields
use Prim.Native.String.{String}
use data_agent_system.Prelude.{
  ℕ, ◌+◌, ◌-◌, ◌*◌, ◌%◌, ◌^◌, Text, Bool, true, false, List, [], ◌∷◌, ◌++◌, Option, none, some,
  ◌==◌, ◌&&◌, ◌||◌, ltb, leb, codes, text_eq, is_empty, length, if◌then◌else◌, ◌>>=◌,
}
use data_agent_system.Prelude.Map.{Map, insert}
use data_agent_system.Intent.Number.{print_ℕ}
use data_agent_system.Log.Escape.{escape, unescape, tab, newline}
use data_agent_system.Log.Lines.{lines_of, split_at, next_field, has_char, strtoull, flag}
use data_agent_system.Txn.Context.{
  AgentTxnContext, CommitLogEntry, TxnStatus, running, committed, aborted,
}

unfoldable pub txn_status_name : TxnStatus → Text
txn_status_name running = codes "RUNNING"
txn_status_name committed = codes "COMMITTED"
txn_status_name aborted = codes "ABORTED"

abbrev pub header : Text
header = codes "DAS_COMMIT_LOG_V1"

abbrev pub entries_mark : Text
entries_mark = codes "[entries]"

unfoldable pub line : String → Text → Text
line name value = codes name ++ value ++ newline ∷ []

unfoldable pub print_log_entry : CommitLogEntry → Text
print_log_entry e =
    escape e.key ++ tab ∷ print_ℕ e.expected_version ++ tab ∷ escape e.value ++ newline ∷ []

unfoldable pub print_log_entries : List CommitLogEntry → Text
print_log_entries [] = []
print_log_entries (e ∷ entries) = print_log_entry e ++ print_log_entries entries

-- What `WriteCommitLogArtifact` sends to the stream; `show` is the stream's text of a `double`.
unfoldable pub print_log : {D : Type 0} → (D → Text) → AgentTxnContext D → Text
unfolding line flag print_log_entries print_log_entry
print_log show txn =
    line "DAS_COMMIT_LOG_V1" []
    ++ line "txn_id=" (escape txn.txn_id)
    ++ line "task_id=" (escape txn.task_id)
    ++ line "status=" (txn_status_name txn.status)
    ++ line "winner_branch_id=" (escape txn.winner_branch_id)
    ++ line "validation_success=" (flag txn.validation_result.success)
    ++ line "validation_reason=" (escape txn.validation_result.reason)
    ++ line "branch_count=" (print_ℕ txn.metrics.branch_count)
    ++ line "planned_loser_count=" (print_ℕ txn.metrics.planned_loser_count)
    ++ line "winner_commit_count=" (print_ℕ txn.metrics.winner_commit_count)
    ++ line "real_abort_count=" (print_ℕ txn.metrics.real_abort_count)
    ++ line "conflict_abort_count=" (print_ℕ txn.metrics.conflict_abort_count)
    ++ line "validation_fail_count=" (print_ℕ txn.metrics.validation_fail_count)
    ++ line "retry_count=" (print_ℕ txn.metrics.retry_count)
    ++ line "commit_latency_us=" (show txn.metrics.commit_latency_us)
    ++ line "entry_count=" (print_ℕ (length txn.commit_log))
    ++ line "[entries]" []
    ++ print_log_entries txn.commit_log

pub record ParsedCommitLogEntry : Type 0 where
  pub key : Text
  pub expected_version : ℕ
  pub value : Text

pub record ParsedCommitLogArtifact : Type 0 where
  pub metadata : Map Text
  pub entries : List ParsedCommitLogEntry

-- A line of the entries: three fields, each of which must have a byte left to read.
unfoldable pub parse_log_entry : Text → Option ParsedCommitLogEntry
unfolding next_field strtoull
parse_log_entry text = do
  (key, text₁) ← next_field tab text
  (version, text₂) ← next_field tab text₁
  (value, text₃) ← next_field newline text₂
  some (record { key = unescape key; expected_version = strtoull version; value = unescape value })

unfoldable pub cons_log_entry :
    ParsedCommitLogEntry → Option (List ParsedCommitLogEntry) → Option (List ParsedCommitLogEntry)
cons_log_entry e none = none
cons_log_entry e (some entries) = some (e ∷ entries)

-- The loop with `in_entries`; another mark, and an empty line, are skipped.
unfoldable pub parse_log_entries : List Text → Option (List ParsedCommitLogEntry)
unfolding parse_log_entry cons_log_entry
parse_log_entries [] = some []
parse_log_entries (text ∷ lines) =
    let rest = parse_log_entries lines in
    if text_eq text entries_mark || is_empty text
    then rest
    else elim (parse_log_entry text) [ none ↦ none | some e ↦ cons_log_entry e rest ]

unfoldable pub with_entries :
    Map Text → Option (List ParsedCommitLogEntry) → Option ParsedCommitLogArtifact
with_entries metadata none = none
with_entries metadata (some entries) = some (record { metadata = metadata; entries = entries })

unfoldable pub add_metadata : Text → Map Text → Map Text
add_metadata text metadata =
    let (name, value) = split_at b'=' text in insert name (unescape value) metadata

-- The loop before `in_entries`.
unfoldable pub parse_log_lines : List Text → Map Text → Option ParsedCommitLogArtifact
unfolding parse_log_entries with_entries add_metadata has_char
parse_log_lines [] metadata = some (record { metadata = metadata; entries = [] })
parse_log_lines (text ∷ lines) metadata =
    let rest = parse_log_lines lines metadata in
    let more = parse_log_lines lines (add_metadata text metadata) in
    if text_eq text entries_mark
    then with_entries metadata (parse_log_entries lines)
    else if is_empty text
    then rest
    else if has_char b'=' text
    then more
    else none

unfoldable pub parse_headed : List Text → Option ParsedCommitLogArtifact
parse_headed [] = none
parse_headed (text ∷ lines) =
    let rest = parse_log_lines lines [] in if text_eq text header then rest else none

-- `ParseCommitLogArtifact` of the content of a file that opens.
unfoldable pub parse_log : Text → Option ParsedCommitLogArtifact
unfolding lines_of parse_headed parse_log_lines
parse_log content = parse_headed (lines_of content)
