-- ===== src/Storage/File.antt =====
-- storage/file_kv_store.h. Every call holds the mutex from its first line to its return, so a call
-- is one step on the map and the disk. The path of the store is a parameter.
pub mod Steps
pub mod Reload
pub mod Agreement
pub mod Crash
use Prim.Native.String.{String}
use data_agent_system.Prelude.{
  ℕ, Text, Bool, true, false, List, [], ◌∷◌, ◌++◌, Option, none, some, ◌==◌, is_some, codes,
  text_eq, map, next_version, if◌then◌else◌, is_empty, ◌>>=◌,
}
use data_agent_system.Prelude.Map.{Map, find, insert, erase}
use data_agent_system.Intent.Number.{print_ℕ}
use data_agent_system.Log.Escape.{escape, tab}
use data_agent_system.Log.Lines.{lines_of, unlines}
use data_agent_system.Log.Artifact.{ParsedCommitLogEntry, parse_log_entry}
use data_agent_system.Fallback.Disk.{Disk, open_truncated, write_flushed, rename, remove_tested}
use data_agent_system.Storage.Interface.{VersionedValue, VersionCheck, WriteOp, VersionedKvStore}
use data_agent_system.Storage.Memory as Memory
use data_agent_system.Storage.Memory.{
  MemoryKvStore, Entry, entry_or_default, write_entry, checks_hold, write_all, current_version,
}

pub record FileKvStore : Type 0 where
  pub values : MemoryKvStore
  pub disk : Disk

abbrev pub file_header : Text
file_header = codes "DAS_KV_V1"

abbrev pub temp_path : Text → Text
temp_path path = path ++ codes ".tmp"

abbrev pub journal_path : Text → Text
journal_path path = path ++ codes ".journal"

-- `Escape`, the same text as that of the commit logs.
abbrev pub escape_file_text : Text → Text
escape_file_text = escape

unfoldable pub entry_text : Text × Entry → Text
entry_text (key, entry) =
    escape_file_text key ++ tab ∷ (print_ℕ entry.version ++ tab ∷ escape_file_text entry.value)

unfoldable pub snapshot_text : MemoryKvStore → Text
unfolding entry_text
snapshot_text values = unlines (file_header ∷ map entry_text values)

unfoldable pub journal_text : Text → Text
journal_text path = unlines (
    codes "DAS_KV_JOURNAL_V1"
    ∷ (codes "target=" ++ escape_file_text path)
    ∷ (codes "temp=" ++ escape_file_text (temp_path path))
    ∷ codes "mode=replace_with_temp"
    ∷ [])

-- The next step, where this one has not failed.
unfoldable pub then_step : Disk × Bool → (Disk → Disk × Bool) → Disk × Bool
then_step (d, true) next = next d
then_step (d, false) next = (d, false)

-- A file that is opened, written and flushed.
unfoldable pub write_file : Text → Text → Disk → Disk × Bool
unfolding open_truncated write_flushed then_step
write_file path content d = then_step (open_truncated path d) (write_flushed path content)

-- `WriteJournalUnlocked`
unfoldable pub write_journal : Text → Disk → Disk × Bool
unfolding write_file journal_text
write_journal path = write_file (journal_path path) (journal_text path)

-- `WriteSnapshotUnlocked`
unfoldable pub write_snapshot : Text → MemoryKvStore → Disk → Disk × Bool
unfolding write_file snapshot_text
write_snapshot output_path values = write_file output_path (snapshot_text values)

unfoldable pub persist_to_disk : Text → MemoryKvStore → Disk → Disk × Bool
unfolding write_journal write_snapshot then_step rename remove_tested
persist_to_disk path values d = then_step (write_journal path d) λ d₁.
    then_step (write_snapshot (temp_path path) values d₁)
      λ d₂. then_step (rename (temp_path path) path d₂) λ d₃. remove_tested (journal_path path) d₃

unfoldable pub file_exists : Text → Disk → Bool
file_exists path d = is_some (find path d.files)

-- `RecoverIfNeededUnlocked`
unfoldable pub recover_if_needed : Text → Disk → Disk × Bool
unfolding file_exists then_step rename remove_tested
recover_if_needed path d =
    let has_journal = file_exists (journal_path path) d in
    let has_temp = file_exists (temp_path path) d in
    let replaced =
      then_step (rename (temp_path path) path d) (λ d'. remove_tested (journal_path path) d') in
    if has_journal
    then (if has_temp then replaced else remove_tested (journal_path path) d)
    else (if has_temp then remove_tested (temp_path path) d else (d, true))

-- One turn of the loop of `LoadFromDiskUnlocked`; the three fields are read as those of a commit
-- log.
unfoldable pub load_line : Text → MemoryKvStore → Option MemoryKvStore
unfolding parse_log_entry
load_line text values =
    if is_empty text
    then some values
    else (parse_log_entry text >>= λ e.
        some (insert e.key (record { value = e.value; version = e.expected_version }) values))

-- The values that are read before a line that does not parse stay.
unfoldable pub load_entries : List Text → MemoryKvStore → MemoryKvStore × Bool
unfolding load_line
load_entries [] values = (values, true)
load_entries (text ∷ lines) values = elim (load_line text values) [
  | none ↦ (values, false)
  | some values' ↦ load_entries lines values'
]

unfoldable pub load_lines : List Text → MemoryKvStore × Bool
unfolding load_entries
load_lines [] = ([], true)
load_lines (text ∷ lines) =
    let loaded = load_entries lines [] in if text_eq text file_header then loaded else ([], false)

-- The values of the file at the path; a store with no file is empty.
unfoldable pub load_content : Option Text → MemoryKvStore × Bool
unfolding load_lines lines_of
load_content none = ([], true)
load_content (some content) = load_lines (lines_of content)

unfoldable pub finish_load : Text → Disk × Bool → FileKvStore × Bool
unfolding load_content
finish_load path (d, false) = (record { values = []; disk = d }, false)
finish_load path (d, true) =
    let (values, ok) = load_content (find path d.files) in
    (record { values = values; disk = d }, ok)

-- `LoadFromDiskUnlocked`, of the constructor and of `Reload`.
unfoldable pub load_from_disk : Text → Disk → FileKvStore × Bool
unfolding recover_if_needed finish_load
load_from_disk path d = finish_load path (recover_if_needed path d)

unfoldable pub reload : Text → FileKvStore → FileKvStore × Bool
unfolding load_from_disk
reload path s = load_from_disk path s.disk

-- The statement `return PersistToDisk()` with the new values.
unfoldable pub persist_values : Text → MemoryKvStore → Disk → FileKvStore × Bool
unfolding persist_to_disk
persist_values path values d =
    let (d', ok) = persist_to_disk path values d in (record { values = values; disk = d' }, ok)

unfoldable pub get : Text → FileKvStore → VersionedValue
unfolding Memory.get
get key s = Memory.get key s.values

unfoldable pub get_version : Text → FileKvStore → ℕ
unfolding get
get_version key s = (get key s).version

unfoldable pub put : Text → Text → Text → FileKvStore → FileKvStore × Bool
unfolding write_entry persist_values
put path key value s = persist_values path (write_entry key value s.values) s.disk

-- `values_[key]` makes an entry also where the versions differ, and nothing is written then.
unfoldable pub put_if_version : Text → Text → ℕ → Text → FileKvStore → FileKvStore × Bool
unfolding write_entry entry_or_default persist_values
put_if_version path key expected_version value s =
    let entry = entry_or_default (find key s.values) in
    if entry.version == expected_version
    then persist_values path (write_entry key value s.values) s.disk
    else (record s { values = insert key entry s.values }, false)

unfoldable pub delete_if_version : Text → Text → ℕ → FileKvStore → FileKvStore × Bool
unfolding current_version persist_values
delete_if_version path key expected_version s =
    if current_version key s.values == expected_version
    then persist_values path (erase key s.values) s.disk
    else (s, false)

unfoldable pub batch_put_if_version :
    Text → List VersionCheck → List WriteOp → FileKvStore → FileKvStore × Bool
unfolding checks_hold write_all persist_values
batch_put_if_version path checks writes s =
    if checks_hold checks s.values
    then persist_values path (write_all writes s.values) s.disk
    else (s, false)

-- `Snapshot`
unfoldable pub snapshot : FileKvStore → List (Text × VersionedValue)
snapshot s =
    map
      (λ (key, entry).
        (key, record { value = entry.value; version = entry.version; exists = true }))
      s.values

unfoldable pub file_kv_store : Text → VersionedKvStore FileKvStore
file_kv_store path = record {
  supports_atomic_batch_conditional_write = true;
  get = get;
  get_version = get_version;
  put = put path;
  put_if_version = put_if_version path;
  delete_if_version = delete_if_version path;
  batch_put_if_version = batch_put_if_version path;
}
