-- ===== src/Fallback/Bounds.antt =====
-- What the parser of an artifact lets through.
use data_agent_system.Prelude.{
  IfSome, IfSome-intro, IfSome-bind, IfSome-if, ◌^◌, ◌<◌, ◌≡◌, subst, Text, Bool, true, false, List,
  [], ◌∷◌, ◌++◌, none, some, All, All-append, arith, length, length-map, leb, map, text_eq,
  is_empty,
}
use data_agent_system.Log.Lines.{split_at, has_char, lines_of}
use data_agent_system.Log.Lines.Fields.{strtoull_bound}
use data_agent_system.Log.Artifact.{entries_mark}
use data_agent_system.Fallback.Artifact.{FallbackCommitArtifact, FallbackCommitEntry}
use data_agent_system.Fallback.Parser.{
  parse_artifact, parse_headed_lines, parse_lines, parse_line, parse_content, parse_entry,
  set_field, finish_parse, unescape_entry, default_artifact, fallback_commit_header,
}
use data_agent_system.Fallback.RoundTrip.Entries.{HasVersions}
use data_agent_system.Fallback.Recovered.{HasNumbers}

-- What the loop keeps.
abbrev Fits : FallbackCommitArtifact → Type 0
Fits a = (a.applied_count < 2 ^ 64) × All HasVersions a.entries

parse_entry-HasVersions :
    (text : Text) (e : FallbackCommitEntry) → parse_entry text ≡ some e → HasVersions e
unfolding parse_entry
parse_entry-HasVersions text e h = grind (arith, strtoull_bound)

set_field-Fits :
    (key value : Text) (a : FallbackCommitArtifact) → Fits a → Fits (set_field key value a)
unfolding set_field
set_field-Fits key value a f = ground (arith, strtoull_bound value)

abbrev FitsAt : Bool × FallbackCommitArtifact → Type 0
FitsAt state = Fits state.1

add_entry-Fits :
    (a : FallbackCommitArtifact) (e : FallbackCommitEntry)
    → Fits a
    → HasVersions e
    → Fits (record a { entries = a.entries ++ e ∷ [] })
add_entry-Fits a e f h = (f.0, All-append HasVersions a.entries (e ∷ []) f.1 (h, tt))

parse_content-Fits :
    (in_entries : Bool) (text : Text) (a : FallbackCommitArtifact)
    → Fits a
    → IfSome Fits (parse_content in_entries text a)
unfolding parse_content
parse_content-Fits false text a f =
    let (key, value) = split_at b'=' text in
    IfSome-if Fits (has_char b'=' text) (some (set_field key value a)) none
      (λ y. set_field-Fits key value a f) tt
parse_content-Fits true text a f =
    IfSome-bind HasVersions Fits (λ e. some (record a { entries = a.entries ++ e ∷ [] }))
      (parse_entry text) (IfSome-intro (parse_entry text) (parse_entry-HasVersions text))
      (λ e. add_entry-Fits a e f)

parse_line-Fits :
    (text : Text) (state : Bool × FallbackCommitArtifact)
    → Fits state.1
    → IfSome FitsAt (parse_line text state)
unfolding parse_line
parse_line-Fits text (in_entries, a) f =
    IfSome-if FitsAt (is_empty text) _ _ (λ e. f)
      (IfSome-if FitsAt (text_eq text entries_mark) _ _ (λ e. f)
        (IfSome-bind Fits FitsAt (λ b. some (in_entries, b)) (parse_content in_entries text a)
          (parse_content-Fits in_entries text a f) (λ b h. h)))

parse_lines-Fits :
    (lines : List Text) (state : Bool × FallbackCommitArtifact)
    → Fits state.1
    → IfSome FitsAt (parse_lines lines state)
unfolding parse_lines
parse_lines-Fits [] state f = f
parse_lines-Fits (text ∷ lines) state f =
    IfSome-bind FitsAt FitsAt (parse_lines lines) (parse_line text state)
      (parse_line-Fits text state f) (parse_lines-Fits lines)

unescaped :
    (entries : List FallbackCommitEntry)
    → All HasVersions entries
    → All HasVersions (map unescape_entry entries)
unfolding unescape_entry
unescaped [] h = tt
unescaped (e ∷ entries) h = (h.0, unescaped entries h.1)

finish_parse-HasNumbers :
    (state : Bool × FallbackCommitArtifact) → Fits state.1 → IfSome HasNumbers (finish_parse state)
unfolding finish_parse
finish_parse-HasNumbers (i, a) f =
    IfSome-if HasNumbers (leb a.applied_count (length a.entries)) _ none
      (λ h. record {
        count = f.0;
        enough = rw (length-map unescape_entry a.entries) (ground arith);
        versions = unescaped a.entries f.1;
      })
      tt

parse_headed_lines-HasNumbers : (lines : List Text) → IfSome HasNumbers (parse_headed_lines lines)
unfolding parse_headed_lines
parse_headed_lines-HasNumbers [] = tt
parse_headed_lines-HasNumbers (text ∷ lines) =
    IfSome-if HasNumbers (text_eq text fallback_commit_header) _ none
      (λ h.
        IfSome-bind FitsAt HasNumbers finish_parse (parse_lines lines (false, default_artifact))
          (parse_lines-Fits lines (false, default_artifact) (ground arith, tt))
          finish_parse-HasNumbers)
      tt

-- Whatever bytes a file holds, an artifact that is read from it has 64-bit versions and no more
-- applied entries than entries.
pub parse_artifact-HasNumbers :
    (content : Text) (a : FallbackCommitArtifact) → parse_artifact content ≡ some a → HasNumbers a
unfolding parse_artifact
parse_artifact-HasNumbers content a h =
    subst (IfSome HasNumbers) h (parse_headed_lines-HasNumbers (lines_of content))
