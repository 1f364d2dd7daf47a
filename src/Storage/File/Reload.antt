-- ===== src/Storage/File/Reload.antt =====
-- What `LoadFromDisk` gives back: the recovery by the journal, and the entries of a snapshot.
use data_agent_system.Prelude.{
  ◌^◌, ◌<◌, Text, true, false, [], ◌∷◌, ◌++◌, some, none, ◌≡◌, refl, sym, ap, ◌∙◌, arith, All,
  append-nil, append_assoc, text_eq, text_eq_iff, text_eq_refl, is_empty, map,
}
use data_agent_system.Prelude.Map.{find, insert, find-insert}
use data_agent_system.Log.Escape.{escape, tab}
use data_agent_system.Log.Lines.Fields.{IsOnLine}
use data_agent_system.Log.Lines.Unlines.{lines_of-unlines}
use data_agent_system.Log.Artifact.Fields.{parse_log_entry-fields_of, fields_of-IsOnLine}
use data_agent_system.Txn.Context.{CommitLogEntry}
use data_agent_system.Storage.Memory.{MemoryKvStore, Entry}
use data_agent_system.Storage.File.{
  entry_text, snapshot_text, file_header, load_line, load_entries, load_lines, load_content,
}

-- An entry that the format can carry: a 64-bit version, and a value that is not empty.
abbrev pub IsStorable : Text × Entry → Type 0
IsStorable (key, entry) = (entry.version < 2 ^ 64) × (is_empty entry.value ≡ false)

-- No key comes twice.
abbrev pub IsMap : MemoryKvStore → Type 0
IsMap [] = Unit
IsMap ((key, entry) ∷ values) = (find key values ≡ none) × IsMap values

abbrev NewTo : MemoryKvStore → Text × Entry → Type 0
NewTo values (key, entry) = find key values ≡ none

insert_new :
    (key : Text) (entry : Entry) (values : MemoryKvStore)
    → find key values ≡ none
    → insert key entry values ≡ values ++ (key, entry) ∷ []
unfolding find insert
insert_new key entry [] h = refl
insert_new key entry ((j, e) ∷ values) h = ground (arith, insert_new key entry values)

NewTo-insert :
    (key : Text) (entry : Entry) (seen more : MemoryKvStore)
    → find key more ≡ none
    → All (NewTo seen) more
    → All (NewTo (insert key entry seen)) more
unfolding find
NewTo-insert key entry seen [] n h = tt
NewTo-insert key entry seen ((j, e) ∷ more) n h =
    let apart : text_eq key j ≡ false = ground (arith, text_eq_iff key j, text_eq_iff j key) in
    (
      find-insert key j entry seen ∙ rw apart h.0,
      NewTo-insert key entry seen more (ground arith) h.1,
    )

not_empty : (s rest : Text) → is_empty (s ++ tab ∷ rest) ≡ false
not_empty [] rest = refl
not_empty (c ∷ s) rest = refl

load_line-entry_text :
    (key : Text) (entry : Entry) (seen : MemoryKvStore)
    → IsStorable (key, entry)
    → load_line (entry_text (key, entry)) seen ≡ some (insert key entry seen)
unfolding load_line entry_text
load_line-entry_text key entry seen (b, n) =
    let e : CommitLogEntry = record {
      key = key;
      value = entry.value;
      expected_version = entry.version;
    } in
    rw (not_empty (escape key) _) (rw (parse_log_entry-fields_of e b n) refl)

load_entries-entry_text :
    (values seen : MemoryKvStore)
    → All IsStorable values
    → IsMap values
    → All (NewTo seen) values
    → load_entries (map entry_text values) seen ≡ (seen ++ values, true)
unfolding load_entries
load_entries-entry_text [] seen s m n =
    ap (λ (v : MemoryKvStore). (v, true)) (sym (append-nil seen))
load_entries-entry_text ((key, entry) ∷ values) seen s m n =
    rw (load_line-entry_text key entry seen s.0, load_entries)
      (load_entries-entry_text values (insert key entry seen) s.1 m.1
          (NewTo-insert key entry seen values m.0 n.1)
        ∙ ap (λ (v : MemoryKvStore). (v, true))
            (ap (λ (v : MemoryKvStore). v ++ values) (insert_new key entry seen n.0)
              ∙ append_assoc seen ((key, entry) ∷ []) values))

All-NewTo_none : (values : MemoryKvStore) → All (NewTo []) values
unfolding find
All-NewTo_none [] = tt
All-NewTo_none ((key, entry) ∷ values) = (refl, All-NewTo_none values)

entry_text-IsOnLine : (values : MemoryKvStore) → All (All IsOnLine) (map entry_text values)
unfolding entry_text
entry_text-IsOnLine [] = tt
entry_text-IsOnLine ((key, entry) ∷ values) = (
  fields_of-IsOnLine (record { key = key; value = entry.value; expected_version = entry.version }),
  entry_text-IsOnLine values,
)

-- A snapshot is read back as the values that it was made of, in their order, where no key comes
-- twice, the versions are 64-bit numbers and no value is empty.
pub load_content-snapshot_text :
    (values : MemoryKvStore)
    → All IsStorable values
    → IsMap values
    → load_content (some (snapshot_text values)) ≡ (values, true)
unfolding load_content load_lines snapshot_text
load_content-snapshot_text values s m =
    let lines = file_header ∷ map entry_text values in
    ap load_lines (lines_of-unlines lines (ground arith, entry_text-IsOnLine values))
    ∙ rw (text_eq_refl file_header) (load_entries-entry_text values [] s m (All-NewTo_none values))
