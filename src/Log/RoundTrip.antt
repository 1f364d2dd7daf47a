-- ===== src/Log/RoundTrip.antt =====
-- The text of a whole commit log (commit_log_io.h) and its parser (commit_log_replay.h).
use data_agent_system.Prelude.{
  ℕ, ◌<◌, ◌^◌, ◌≡◌, refl, ap, ◌∙◌, Text, Bool, true, false, List, [], ◌∷◌, ◌++◌, some, All,
  All-append, All-map, arith, codes, map, length, text_eq, is_empty, append_assoc, text_eq_refl,
}
use data_agent_system.Prelude.Map.{Map, find, insert, find-insert}
use data_agent_system.Intent.Number.{print_ℕ, parse_ℕ-print_ℕ}
use data_agent_system.Log.Escape.{escape, unescape, escape-IsPlain, newline}
use data_agent_system.Log.Lines.{key_value, unlines, flag, lines_of}
use data_agent_system.Log.Lines.Keys.{
  IsKeyByte, IsField, split_at-key, has_char-key, key_ne_mark, key-is_empty,
}
use data_agent_system.Log.Lines.Fields.{parse_ℕ-IsPlain, IsOnLine, All-IsOnLine}
use data_agent_system.Log.Lines.Unlines.{lines_of-unlines, tab_ne_mark, has_tab-is_empty}
use data_agent_system.Log.Artifact.{
  print_log, print_log_entries, parse_log, parse_log_lines, parse_log_entries, parse_headed,
  add_metadata, with_entries, cons_log_entry, txn_status_name, line, ParsedCommitLogEntry,
  ParsedCommitLogArtifact, entries_mark, header,
}
use data_agent_system.Log.Artifact.Fields.{
  fields_of, print_log_entry-fields_of, parse_log_entry-fields_of, fields_of-IsOnLine,
}
use data_agent_system.Txn.Context.{
  AgentTxnContext, CommitLogEntry, TxnStatus, running, committed, aborted,
}

-- An entry that the parser reads: a 64-bit version, and a value that is not empty.
abbrev pub IsReadable : CommitLogEntry → Type 0
IsReadable e = (e.expected_version < 2 ^ 64) × (is_empty e.value ≡ false)

abbrev pub as_read : CommitLogEntry → ParsedCommitLogEntry
as_read e = record { key = e.key; expected_version = e.expected_version; value = e.value }

parse_log_entries-fields_of :
    (entries : List CommitLogEntry)
    → All IsReadable entries
    → parse_log_entries (map fields_of entries) ≡ some (map as_read entries)
unfolding parse_log_entries cons_log_entry
parse_log_entries-fields_of [] h = refl
parse_log_entries-fields_of (e ∷ entries) h =
    rw
      (
        tab_ne_mark (escape e.key) (print_ℕ e.expected_version ++ b'\t' ∷ escape e.value)
            entries_mark (ground arith),
        has_tab-is_empty (escape e.key) (print_ℕ e.expected_version ++ b'\t' ∷ escape e.value),
        parse_log_entry-fields_of e h.0.0 h.0.1,
        parse_log_entries-fields_of entries h.1,
      )
      refl

-- The metadata that the lines leave.
abbrev log_metadata : List (Text × Text) → Map Text → Map Text
log_metadata [] metadata = metadata
log_metadata ((key, value) ∷ fields) metadata =
    log_metadata fields (insert key (unescape value) metadata)

add_metadata-key_value :
    (key value : Text) (metadata : Map Text)
    → All IsKeyByte key
    → add_metadata (key_value (key, value)) metadata ≡ insert key (unescape value) metadata
unfolding add_metadata
add_metadata-key_value key value metadata h = rw (split_at-key key value h) refl

parse_log_lines-key_value :
    (fields : List (Text × Text)) (lines : List Text) (metadata : Map Text)
    → All IsField fields
    → parse_log_lines (map key_value fields ++ lines) metadata
      ≡ parse_log_lines lines (log_metadata fields metadata)
unfolding parse_log_lines
parse_log_lines-key_value [] lines metadata h = refl
parse_log_lines-key_value ((key, value) ∷ fields) lines metadata h =
    rw
      (
        key_ne_mark key value entries_mark (ground arith),
        key-is_empty key value,
        has_char-key key value,
        add_metadata-key_value key value metadata h.0.0,
      )
      (parse_log_lines-key_value fields lines (insert key (unescape value) metadata) h.1)

print_log_entries-fields_of :
    (entries : List CommitLogEntry) → print_log_entries entries ≡ unlines (map fields_of entries)
unfolding print_log_entries
print_log_entries-fields_of [] = refl
print_log_entries-fields_of (e ∷ entries) =
    rw (print_log_entry-fields_of e, print_log_entries-fields_of entries)
      (append_assoc (fields_of e) (newline ∷ []) (unlines (map fields_of entries)))

escape-IsOnLine : (t : Text) → All IsOnLine (escape t)
escape-IsOnLine t = All-IsOnLine (escape t) (escape-IsPlain t)

print_ℕ-IsOnLine : (n : ℕ) → All IsOnLine (print_ℕ n)
print_ℕ-IsOnLine n = All-IsOnLine (print_ℕ n) (parse_ℕ-IsPlain _ _ (parse_ℕ-print_ℕ n))

flag-IsOnLine : (b : Bool) → All IsOnLine (flag b)
unfolding flag
flag-IsOnLine true = ground arith
flag-IsOnLine false = ground arith

txn_status_name-IsOnLine : (status : TxnStatus) → All IsOnLine (txn_status_name status)
unfolding txn_status_name
txn_status_name-IsOnLine running = ground arith
txn_status_name-IsOnLine committed = ground arith
txn_status_name-IsOnLine aborted = ground arith

unescape-txn_status_name :
    (status : TxnStatus) → unescape (txn_status_name status) ≡ txn_status_name status
unfolding txn_status_name unescape
unescape-txn_status_name running = refl
unescape-txn_status_name committed = refl
unescape-txn_status_name aborted = refl

fields_of-All : (entries : List CommitLogEntry) → All (All IsOnLine) (map fields_of entries)
fields_of-All [] = tt
fields_of-All (e ∷ entries) = (fields_of-IsOnLine e, fields_of-All entries)

key_value-All :
    (fields : List (Text × Text)) → All IsField fields → All (All IsOnLine) (map key_value fields)
key_value-All [] h = tt
key_value-All ((key, value) ∷ fields) h = (
  All-append IsOnLine key (b'=' ∷ value) (All-map (λ c k. k.1) key h.0.0) (ground arith, h.0.1),
  key_value-All fields h.1,
)

-- What the parser makes of a log: its status, and its entries.
pub record IsRead {D : Type 0} (txn : AgentTxnContext D) (a : ParsedCommitLogArtifact)
    : Type 0 where
  pub entries : a.entries ≡ map as_read txn.commit_log
  pub status : find (codes "status") a.metadata ≡ some (txn_status_name txn.status)

module _ {D : Type 0} (show : D → Text) (txn : AgentTxnContext D) where
  -- The keys and the texts of the lines before the entries.
  log_fields : List (Text × Text)
  log_fields =
      (codes "txn_id", escape txn.txn_id)
      ∷ (codes "task_id", escape txn.task_id)
      ∷ (codes "status", txn_status_name txn.status)
      ∷ (codes "winner_branch_id", escape txn.winner_branch_id)
      ∷ (codes "validation_success", flag txn.validation_result.success)
      ∷ (codes "validation_reason", escape txn.validation_result.reason)
      ∷ (codes "branch_count", print_ℕ txn.metrics.branch_count)
      ∷ (codes "planned_loser_count", print_ℕ txn.metrics.planned_loser_count)
      ∷ (codes "winner_commit_count", print_ℕ txn.metrics.winner_commit_count)
      ∷ (codes "real_abort_count", print_ℕ txn.metrics.real_abort_count)
      ∷ (codes "conflict_abort_count", print_ℕ txn.metrics.conflict_abort_count)
      ∷ (codes "validation_fail_count", print_ℕ txn.metrics.validation_fail_count)
      ∷ (codes "retry_count", print_ℕ txn.metrics.retry_count)
      ∷ (codes "commit_latency_us", show txn.metrics.commit_latency_us)
      ∷ (codes "entry_count", print_ℕ (length txn.commit_log))
      ∷ []

  log_lines : List Text
  log_lines = header ∷ (map key_value log_fields ++ entries_mark ∷ map fields_of txn.commit_log)

  print_log-unlines : print_log show txn ≡ unlines log_lines
  unfolding print_log line log_lines log_fields
  print_log-unlines = simp (append_assoc, print_log_entries-fields_of)

  log_fields-IsField : All IsOnLine (show txn.metrics.commit_latency_us) → All IsField log_fields
  unfolding log_fields
  log_fields-IsField h =
      let result = txn.validation_result in
      (
        (ground arith, escape-IsOnLine txn.txn_id),
        (
          (ground arith, escape-IsOnLine txn.task_id),
          (
            (ground arith, txn_status_name-IsOnLine txn.status),
            (
              (ground arith, escape-IsOnLine txn.winner_branch_id),
              (
                (ground arith, flag-IsOnLine result.success),
                (
                  (ground arith, escape-IsOnLine result.reason),
                  (
                    (ground arith, print_ℕ-IsOnLine txn.metrics.branch_count),
                    (
                      (ground arith, print_ℕ-IsOnLine txn.metrics.planned_loser_count),
                      (
                        (ground arith, print_ℕ-IsOnLine txn.metrics.winner_commit_count),
                        (
                          (ground arith, print_ℕ-IsOnLine txn.metrics.real_abort_count),
                          (
                            (ground arith, print_ℕ-IsOnLine txn.metrics.conflict_abort_count),
                            (
                              (ground arith, print_ℕ-IsOnLine txn.metrics.validation_fail_count),
                              (
                                (ground arith, print_ℕ-IsOnLine txn.metrics.retry_count),
                                (
                                  (ground arith, h),
                                  ((ground arith, print_ℕ-IsOnLine (length txn.commit_log)), tt),
                                ),
                              ),
                            ),
                          ),
                        ),
                      ),
                    ),
                  ),
                ),
              ),
            ),
          ),
        ),
      )

  log_lines-IsOnLine :
      All IsOnLine (show txn.metrics.commit_latency_us) → All (All IsOnLine) log_lines
  unfolding log_lines
  log_lines-IsOnLine h = (
    ground arith,
    All-append (All IsOnLine) (map key_value log_fields)
        (entries_mark ∷ map fields_of txn.commit_log)
        (key_value-All log_fields (log_fields-IsField h))
        (ground arith, fields_of-All txn.commit_log),
  )

  parse_log_lines-entries_mark :
      (metadata : Map Text)
      → All IsReadable txn.commit_log
      → parse_log_lines (entries_mark ∷ map fields_of txn.commit_log) metadata
        ≡ some (record { metadata = metadata; entries = map as_read txn.commit_log })
  unfolding parse_log_lines with_entries
  parse_log_lines-entries_mark metadata r =
      rw (text_eq_refl entries_mark, parse_log_entries-fields_of txn.commit_log r) refl

  status_found :
      find (codes "status") (log_metadata log_fields []) ≡ some (txn_status_name txn.status)
  unfolding log_fields text_eq find
  status_found = simp (find-insert, unescape-txn_status_name)

  parse_headed-log_lines :
      All IsOnLine (show txn.metrics.commit_latency_us)
      → All IsReadable txn.commit_log
      → parse_headed log_lines
        ≡ some
            (record { metadata = log_metadata log_fields []; entries = map as_read txn.commit_log })
  unfolding parse_headed log_lines
  parse_headed-log_lines h r = rw (text_eq_refl header) (
      parse_log_lines-key_value log_fields (entries_mark ∷ map fields_of txn.commit_log) []
        (log_fields-IsField h)
      ∙ parse_log_lines-entries_mark (log_metadata log_fields []) r)

  -- The text of a log is read back: its status and its entries.
  pub parse_log-print_log :
      All IsOnLine (show txn.metrics.commit_latency_us)
      → All IsReadable txn.commit_log
      → (a : ParsedCommitLogArtifact) × (parse_log (print_log show txn) ≡ some a) × IsRead txn a
  unfolding parse_log
  parse_log-print_log h r = (
    record { metadata = log_metadata log_fields []; entries = map as_read txn.commit_log },
    ap (λ (text : Text). parse_headed (lines_of text)) print_log-unlines
        ∙ ap parse_headed (lines_of-unlines log_lines (log_lines-IsOnLine h))
        ∙ parse_headed-log_lines h r,
    record { entries = refl; status = status_found },
  )
