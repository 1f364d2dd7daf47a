-- ===== src/Log/Artifact/Fields.antt =====
-- A line of a commit log is read back as the entry that it was printed from.
use data_agent_system.Prelude.{
  ◌^◌, ◌<◌, ◌≡◌, refl, ◌∙◌, Text, false, [], ◌∷◌, ◌++◌, some, All, is_empty, append_assoc,
}
use data_agent_system.Intent.Number.{print_ℕ, parse_ℕ-print_ℕ}
use data_agent_system.Log.Escape.{escape, unescape, tab, newline, unescape-escape, escape-IsPlain}
use data_agent_system.Txn.Context.{CommitLogEntry}
use data_agent_system.Log.Lines.{next_field, strtoull}
use data_agent_system.Log.Lines.Fields.{
  next_field_before_tab, next_field_last, strtoull_digits, parse_ℕ-IsPlain, escape-is_empty,
  IsOnLine, All-IsOnLine, All-tab,
}
use data_agent_system.Log.Artifact.{parse_log_entry, print_log_entry}

parse_log_entry_fields :
    (text text₁ text₂ key version value : Text)
    → next_field tab text ≡ some (key, text₁)
    → next_field tab text₁ ≡ some (version, text₂)
    → next_field newline text₂ ≡ some (value, [])
    → parse_log_entry text
      ≡ some (record {
        key = unescape key;
        expected_version = strtoull version;
        value = unescape value;
      })
unfolding parse_log_entry
parse_log_entry_fields text text₁ text₂ key version value e f g =
    rw (e, parse_log_entry) (rw f (rw g refl))

-- The line of a log entry without its newline.
abbrev pub fields_of : CommitLogEntry → Text
fields_of e = escape e.key ++ tab ∷ (print_ℕ e.expected_version ++ tab ∷ escape e.value)

pub print_log_entry-fields_of :
    (e : CommitLogEntry) → print_log_entry e ≡ fields_of e ++ newline ∷ []
unfolding print_log_entry
print_log_entry-fields_of e = simp append_assoc

pub parse_log_entry-fields_of :
    (e : CommitLogEntry)
    → e.expected_version < 2 ^ 64
    → is_empty e.value ≡ false
    → parse_log_entry (fields_of e)
      ≡ some (record { key = e.key; expected_version = e.expected_version; value = e.value })
parse_log_entry-fields_of e b n =
    let digits = parse_ℕ-print_ℕ e.expected_version in
    parse_log_entry_fields (fields_of e) (print_ℕ e.expected_version ++ tab ∷ escape e.value)
      (escape e.value) (escape e.key) (print_ℕ e.expected_version) (escape e.value)
      (next_field_before_tab (escape e.key) (print_ℕ e.expected_version ++ tab ∷ escape e.value)
        (escape-IsPlain e.key))
      (next_field_before_tab (print_ℕ e.expected_version) (escape e.value)
        (parse_ℕ-IsPlain _ _ digits))
      (next_field_last (escape e.value) (escape-IsPlain e.value) (escape-is_empty e.value n))
    ∙ rw
        (
          unescape-escape e.key,
          unescape-escape e.value,
          strtoull_digits (print_ℕ e.expected_version) e.expected_version digits b,
        )
        refl

pub fields_of-IsOnLine : (e : CommitLogEntry) → All IsOnLine (fields_of e)
fields_of-IsOnLine e = All-tab (escape e.key) _ (All-IsOnLine _ (escape-IsPlain e.key)) (
    All-tab (print_ℕ e.expected_version) (escape e.value)
      (All-IsOnLine _ (parse_ℕ-IsPlain _ _ (parse_ℕ-print_ℕ e.expected_version)))
      (All-IsOnLine _ (escape-IsPlain e.value)))

-- The text that a commit log has for an entry is a line, ended by a newline, that is read back as
-- that entry, where the version is a 64-bit number and the value is not empty.
pub parse_log_entry-print_log_entry :
    (e : CommitLogEntry)
    → e.expected_version < 2 ^ 64
    → is_empty e.value ≡ false
    → (text : Text) × (print_log_entry e ≡ text ++ newline ∷ [])
      × All IsOnLine text
      × (parse_log_entry text
          ≡ some (record { key = e.key; expected_version = e.expected_version; value = e.value }))
parse_log_entry-print_log_entry e b n = (
  fields_of e,
  print_log_entry-fields_of e,
  fields_of-IsOnLine e,
  parse_log_entry-fields_of e b n,
)
