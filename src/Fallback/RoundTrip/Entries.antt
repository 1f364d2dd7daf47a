-- ===== src/Fallback/RoundTrip/Entries.antt =====
-- The line of an entry of an artifact and its parser.
use data_agent_system.Prelude.{
  ℕ, ◌^◌, ◌<◌, ◌≡◌, refl, ◌∙◌, Text, Bool, true, false, List, [], ◌∷◌, ◌++◌, some, All, arith,
  append_assoc, codes, text_eq, map,
}
use data_agent_system.Intent.Number.{print_ℕ, parse_ℕ-print_ℕ}
use data_agent_system.Log.Escape.{escape, tab, newline, unescape-escape, escape-IsPlain, IsPlain}
use data_agent_system.Log.Lines.{unlines, strtoull, flag, next_field, split_at}
use data_agent_system.Log.Lines.Fields.{
  IsOnLine, All-IsOnLine, All-tab, next_field_before_tab, parse_ℕ-IsPlain, strtoull_digits,
}
use data_agent_system.Fallback.Artifact.{FallbackCommitEntry, print_entry, print_entries}
use data_agent_system.Fallback.Parser.{parse_entry, unescape_entry}

-- The versions are 64-bit numbers.
abbrev pub HasVersions : FallbackCommitEntry → Type 0
HasVersions e = (e.expected_version < 2 ^ 64) × (e.previous_version < 2 ^ 64)

-- The line of an entry.
abbrev pub entry_text : FallbackCommitEntry → Text
entry_text e =
    escape e.key
    ++ tab
      ∷ (print_ℕ e.expected_version
          ++ tab
            ∷ (escape e.target_value
                ++ tab
                  ∷ (escape e.previous_value
                      ++ tab ∷ (print_ℕ e.previous_version ++ tab ∷ flag e.previous_exists))))

print_entry-entry_text : (e : FallbackCommitEntry) → print_entry e ≡ entry_text e ++ newline ∷ []
unfolding print_entry
print_entry-entry_text e = simp append_assoc

pub print_entries-unlines :
    (entries : List FallbackCommitEntry) → print_entries entries ≡ unlines (map entry_text entries)
unfolding print_entries
print_entries-unlines [] = refl
print_entries-unlines (e ∷ entries) =
    rw (print_entry-entry_text e, print_entries-unlines entries)
      (append_assoc (entry_text e) (newline ∷ []) _)

-- What `parse_entry` reads, still escaped.
abbrev pub raw_entry : FallbackCommitEntry → FallbackCommitEntry
raw_entry e = record e {
  key = escape e.key;
  target_value = escape e.target_value;
  previous_value = escape e.previous_value;
}

unescape_entry-raw_entry : (e : FallbackCommitEntry) → unescape_entry (raw_entry e) ≡ e
unfolding unescape_entry
unescape_entry-raw_entry e =
    rw (unescape-escape e.key, unescape-escape e.target_value, unescape-escape e.previous_value)
      refl

pub unescape_entries :
    (entries : List FallbackCommitEntry) → map unescape_entry (map raw_entry entries) ≡ entries
unescape_entries [] = refl
unescape_entries (e ∷ entries) = rw (unescape_entry-raw_entry e, unescape_entries entries) refl

-- The six fields, read one after the other.
parse_entry_fields :
    (t₀ t₁ t₂ t₃ t₄ t₅ k v x y w f : Text)
    → next_field tab t₀ ≡ some (k, t₁)
    → next_field tab t₁ ≡ some (v, t₂)
    → next_field tab t₂ ≡ some (x, t₃)
    → next_field tab t₃ ≡ some (y, t₄)
    → next_field tab t₄ ≡ some (w, t₅)
    → next_field newline t₅ ≡ some (f, [])
    → parse_entry t₀
      ≡ some (record {
        key = k;
        expected_version = strtoull v;
        target_value = x;
        previous_value = y;
        previous_version = strtoull w;
        previous_exists = text_eq f (codes "1");
      })
unfolding parse_entry
parse_entry_fields t₀ t₁ t₂ t₃ t₄ t₅ k v x y w f a b c d e g =
    rw (a, parse_entry) (rw b (rw c (rw d (rw e (rw g refl)))))

pub print_ℕ-IsPlain : (n : ℕ) → All IsPlain (print_ℕ n)
print_ℕ-IsPlain n = parse_ℕ-IsPlain _ _ (parse_ℕ-print_ℕ n)

pub strtoull-print_ℕ : (n : ℕ) → n < 2 ^ 64 → strtoull (print_ℕ n) ≡ n
strtoull-print_ℕ n h = strtoull_digits (print_ℕ n) n (parse_ℕ-print_ℕ n) h

next_field-flag : (b : Bool) → next_field newline (flag b) ≡ some (flag b, [])
unfolding next_field split_at flag
next_field-flag true = refl
next_field-flag false = refl

flag_is_one : (b : Bool) → text_eq (flag b) (codes "1") ≡ b
unfolding flag text_eq
flag_is_one true = refl
flag_is_one false = refl

pub parse_entry-entry_text :
    (e : FallbackCommitEntry) → HasVersions e → parse_entry (entry_text e) ≡ some (raw_entry e)
parse_entry-entry_text e h =
    parse_entry_fields (entry_text e) _ _ _ _ _ (escape e.key) (print_ℕ e.expected_version)
      (escape e.target_value) (escape e.previous_value) (print_ℕ e.previous_version)
      (flag e.previous_exists) (next_field_before_tab _ _ (escape-IsPlain e.key))
      (next_field_before_tab _ _ (print_ℕ-IsPlain e.expected_version))
      (next_field_before_tab _ _ (escape-IsPlain e.target_value))
      (next_field_before_tab _ _ (escape-IsPlain e.previous_value))
      (next_field_before_tab _ _ (print_ℕ-IsPlain e.previous_version))
      (next_field-flag e.previous_exists)
    ∙ rw
        (
          strtoull-print_ℕ e.expected_version h.0,
          strtoull-print_ℕ e.previous_version h.1,
          flag_is_one e.previous_exists,
        )
        refl

flag-IsOnLine : (b : Bool) → All IsOnLine (flag b)
unfolding flag
flag-IsOnLine true = ground arith
flag-IsOnLine false = ground arith

pub escape-IsOnLine : (t : Text) → All IsOnLine (escape t)
escape-IsOnLine t = All-IsOnLine (escape t) (escape-IsPlain t)

pub print_ℕ-IsOnLine : (n : ℕ) → All IsOnLine (print_ℕ n)
print_ℕ-IsOnLine n = All-IsOnLine (print_ℕ n) (print_ℕ-IsPlain n)

entry_text-IsOnLine : (e : FallbackCommitEntry) → All IsOnLine (entry_text e)
entry_text-IsOnLine e = All-tab _ _ (escape-IsOnLine e.key) (
    All-tab _ _ (print_ℕ-IsOnLine e.expected_version) (
      All-tab _ _ (escape-IsOnLine e.target_value) (
        All-tab _ _ (escape-IsOnLine e.previous_value)
          (All-tab _ _ (print_ℕ-IsOnLine e.previous_version) (flag-IsOnLine e.previous_exists)))))

pub entries-IsOnLine :
    (entries : List FallbackCommitEntry) → All (All IsOnLine) (map entry_text entries)
entries-IsOnLine [] = tt
entries-IsOnLine (e ∷ entries) = (entry_text-IsOnLine e, entries-IsOnLine entries)
