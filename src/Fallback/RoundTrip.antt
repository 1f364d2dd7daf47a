-- ===== src/Fallback/RoundTrip.antt =====
-- The text of an artifact (data_agent_system/agent_txn/fallback_commit_log.h) and its parser.
pub mod Entries
use data_agent_system.Prelude.{
  ℕ, ◌^◌, ◌<◌, ◌≤◌, ◌≡◌, refl, sym, ap, ◌∙◌, Text, Bool, true, false, List, [], ◌∷◌, ◌++◌, Option,
  some, All, All-append, All-map, arith, append_assoc, append-nil, codes, text_eq, length,
  length-map, leb, map, is_empty,
}
use data_agent_system.Intent.Number.{print_ℕ, parse_ℕ-print_ℕ}
use data_agent_system.Log.Escape.{
  escape, unescape, tab, newline, unescape-escape, escape-IsPlain, IsPlain,
}
use data_agent_system.Log.Lines.{unlines, strtoull, flag, next_field, split_at, has_char}
use data_agent_system.Log.Lines.Fields.{
  IsOnLine, All-IsOnLine, All-tab, next_field_before_tab, next_field_last, parse_ℕ-IsPlain,
  strtoull_digits,
}
use data_agent_system.Log.Lines.Unlines.{
  has_tab-is_empty, lines_of-unlines, unlines-append, tab_ne_mark,
}
use data_agent_system.Log.Artifact.{entries_mark}
use data_agent_system.Fallback.Artifact.{
  FallbackCommitArtifact, FallbackCommitEntry, FallbackCommitPhase, print_artifact, print_entry,
  print_entries, phase_name, phase_from_name-phase_name, prepared, applying, rolling_back,
  committed, rolled_back,
}
use data_agent_system.Fallback.Parser.{
  parse_artifact, parse_headed_lines, parse_lines, parse_line, parse_entry, parse_content,
  finish_parse, unescape_entry, default_artifact, fallback_commit_header, set_field,
}
use data_agent_system.Fallback.RoundTrip.Entries.{
  HasVersions, entry_text, raw_entry, print_entries-unlines, unescape_entries, strtoull-print_ℕ,
  print_ℕ-IsPlain, parse_entry-entry_text, escape-IsOnLine, print_ℕ-IsOnLine, entries-IsOnLine,
}

metadata_lines : FallbackCommitArtifact → List Text
metadata_lines a =
    (codes "txn_id=" ++ escape a.txn_id)
    ∷ (codes "task_id=" ++ escape a.task_id)
    ∷ (codes "phase=" ++ phase_name a.phase)
    ∷ (codes "applied_count=" ++ print_ℕ a.applied_count)
    ∷ (codes "entry_count=" ++ print_ℕ (length a.entries))
    ∷ []

artifact_lines : FallbackCommitArtifact → List Text
unfolding metadata_lines
artifact_lines a =
    fallback_commit_header ∷ metadata_lines a ++ entries_mark ∷ map entry_text a.entries

print_artifact-unlines :
    (a : FallbackCommitArtifact) → print_artifact a ≡ unlines (artifact_lines a)
unfolding print_artifact artifact_lines metadata_lines
print_artifact-unlines a = rw (print_entries-unlines a.entries) (simp append_assoc)

-- An artifact with more entries.
abbrev with_more : List FallbackCommitEntry → FallbackCommitArtifact → FallbackCommitArtifact
with_more entries a = record a { entries = a.entries ++ entries }

parse_line_entry :
    (text : Text) (e : FallbackCommitEntry) (a : FallbackCommitArtifact)
    → is_empty text ≡ false
    → text_eq text entries_mark ≡ false
    → parse_entry text ≡ some e
    → parse_line text (true, a) ≡ some (true, with_more (e ∷ []) a)
unfolding parse_line parse_content
parse_line_entry text e a n m h = rw (n, m) (rw (h, parse_content) refl)

parse_line-entry_text :
    (e : FallbackCommitEntry) (a : FallbackCommitArtifact)
    → HasVersions e
    → parse_line (entry_text e) (true, a) ≡ some (true, with_more (raw_entry e ∷ []) a)
parse_line-entry_text e a h =
    parse_line_entry (entry_text e) (raw_entry e) a (has_tab-is_empty (escape e.key) _)
      (tab_ne_mark (escape e.key) _ entries_mark (ground arith)) (parse_entry-entry_text e h)

parse_lines-entry_text :
    (entries : List FallbackCommitEntry) (a : FallbackCommitArtifact)
    → All HasVersions entries
    → parse_lines (map entry_text entries) (true, a)
      ≡ some (true, with_more (map raw_entry entries) a)
unfolding parse_lines
parse_lines-entry_text [] a h =
    ap (λ (es : List FallbackCommitEntry). some (true, record a { entries = es }))
      (sym (append-nil a.entries))
parse_lines-entry_text (e ∷ entries) a h =
    rw (parse_line-entry_text e a h.0, parse_lines)
      (parse_lines-entry_text entries (with_more (raw_entry e ∷ []) a) h.1
        ∙ ap (λ (es : List FallbackCommitEntry). some (true, record a { entries = es }))
            (append_assoc a.entries (raw_entry e ∷ []) (map raw_entry entries)))

-- The artifact when the loop reaches the mark.
abbrev raw_head : FallbackCommitArtifact → FallbackCommitArtifact
raw_head a = record a { txn_id = escape a.txn_id; task_id = escape a.task_id; entries = [] }

parse_lines-metadata_lines :
    (a : FallbackCommitArtifact) (lines : List Text)
    → a.applied_count < 2 ^ 64
    → parse_lines (metadata_lines a ++ entries_mark ∷ lines) (false, default_artifact)
      ≡ parse_lines lines (true, raw_head a)
unfolding parse_lines parse_line parse_content split_at has_char metadata_lines set_field text_eq
parse_lines-metadata_lines a lines h =
    rw (phase_from_name-phase_name a.phase, strtoull-print_ℕ a.applied_count h) refl

finish_parse-with_more :
    (a : FallbackCommitArtifact)
    → a.applied_count ≤ length a.entries
    → finish_parse (true, with_more (map raw_entry a.entries) (raw_head a)) ≡ some a
unfolding finish_parse
finish_parse-with_more a h =
    let fits : leb a.applied_count (length (map raw_entry a.entries)) ≡ true =
      rw (length-map raw_entry a.entries) (ground arith) in
    rw fits
      (rw (unescape-escape a.txn_id, unescape-escape a.task_id, unescape_entries a.entries) refl)

phase_name-IsOnLine : (phase : FallbackCommitPhase) → All IsOnLine (phase_name phase)
unfolding phase_name
phase_name-IsOnLine prepared = ground arith
phase_name-IsOnLine applying = ground arith
phase_name-IsOnLine rolling_back = ground arith
phase_name-IsOnLine committed = ground arith
phase_name-IsOnLine rolled_back = ground arith

metadata_lines-IsOnLine : (a : FallbackCommitArtifact) → All (All IsOnLine) (metadata_lines a)
unfolding metadata_lines
metadata_lines-IsOnLine a = (
  All-append IsOnLine (codes "txn_id=") _ (ground arith) (escape-IsOnLine a.txn_id),
  (
    All-append IsOnLine (codes "task_id=") _ (ground arith) (escape-IsOnLine a.task_id),
    (
      All-append IsOnLine (codes "phase=") _ (ground arith) (phase_name-IsOnLine a.phase),
      (
        All-append IsOnLine (codes "applied_count=") _ (ground arith)
            (print_ℕ-IsOnLine a.applied_count),
        (
          All-append IsOnLine (codes "entry_count=") _ (ground arith)
              (print_ℕ-IsOnLine (length a.entries)),
          tt,
        ),
      ),
    ),
  ),
)

artifact_lines-IsOnLine : (a : FallbackCommitArtifact) → All (All IsOnLine) (artifact_lines a)
unfolding artifact_lines
artifact_lines-IsOnLine a = (
  ground arith,
  All-append (All IsOnLine) (metadata_lines a) (entries_mark ∷ map entry_text a.entries)
      (metadata_lines-IsOnLine a) (ground arith, entries-IsOnLine a.entries),
)

parse_headed_lines-artifact_lines :
    (a : FallbackCommitArtifact)
    → a.applied_count < 2 ^ 64
    → a.applied_count ≤ length a.entries
    → All HasVersions a.entries
    → parse_headed_lines (artifact_lines a) ≡ some a
unfolding parse_headed_lines artifact_lines text_eq
parse_headed_lines-artifact_lines a b c v =
    rw (parse_lines-metadata_lines a (map entry_text a.entries) b)
      (rw (parse_lines-entry_text a.entries (raw_head a) v) (finish_parse-with_more a c))

-- An artifact is read back from the text that is written for it, whatever bytes its texts hold, where
-- no more entries are applied than there are, and the versions and the applied count are 64-bit
-- numbers.
pub parse_artifact-print_artifact :
    (a : FallbackCommitArtifact)
    → a.applied_count < 2 ^ 64
    → a.applied_count ≤ length a.entries
    → All HasVersions a.entries
    → parse_artifact (print_artifact a) ≡ some a
unfolding parse_artifact
parse_artifact-print_artifact a b c v =
    ap parse_artifact (print_artifact-unlines a)
    ∙ ap parse_headed_lines (lines_of-unlines (artifact_lines a) (artifact_lines-IsOnLine a))
    ∙ parse_headed_lines-artifact_lines a b c v
