-- ===== src/Storage/File/Crash.antt =====
-- Loading a store whose last save was cut off.
use data_agent_system.Prelude.{
  ℕ, zero, suc, ◌<◌, Text, Bool, true, false, List, [], ◌∷◌, ◌++◌, Option, some, none, ◌≡◌, refl,
  ap, ◌∙◌, arith, text_eq, text_eq_refl, is_some, take, ltb, ◌==◌, ◌&&◌, sym, if◌then◌else◌,
  Option-cases, inl, inr,
}
use data_agent_system.Prelude.Map.{Map, find, insert, erase, find-insert_self, map_laws}
use data_agent_system.Fallback.Disk.{
  Disk, IoOutcome, succeeded, failed, rename, remove_tested, open_truncated, write_flushed,
}
use data_agent_system.Fallback.Durable.{IsReliable}
use data_agent_system.Storage.Memory.{MemoryKvStore}
use data_agent_system.Storage.File.{
  FileKvStore, snapshot_text, journal_text, load_content, load_from_disk, finish_load,
  persist_to_disk, recover_if_needed, file_exists, temp_path, journal_path, then_step,
  write_journal, write_snapshot, write_file,
}
use data_agent_system.Storage.File.Steps.{
  Stepped, remove_tested-Stepped, replace-Stepped, path_temp, temp_path_path, path_journal,
  journal_path_path, temp_journal, journal_temp,
}

-- The file that counts: the temporary one where it stands beside a journal.
unfoldable pub current_content : Text → Disk → Option Text
current_content path d =
    if is_some (find (journal_path path) d.files) && is_some (find (temp_path path) d.files)
    then find (temp_path path) d.files
    else find path d.files

pub record IsLoaded (path : Text) (d : Disk) (loaded : FileKvStore × Bool) : Type 0 where
  pub values : loaded.0.values ≡ (load_content (current_content path d)).0
  pub result : loaded.1 ≡ (load_content (current_content path d)).1
  pub no_temp : find (temp_path path) loaded.0.disk.files ≡ none
  pub no_journal : find (journal_path path) loaded.0.disk.files ≡ none

finished :
    (path : Text) (d : Disk) (step : Disk × Bool) (files : Text → Option Text)
    → Stepped step files
    → files path ≡ current_content path d
    → files (temp_path path) ≡ none
    → files (journal_path path) ≡ none
    → recover_if_needed path d ≡ step
    → IsLoaded path d (load_from_disk path d)
unfolding load_from_disk finish_load
finished path d step files s p t j e =
    rw (e ∙ s.result, load_from_disk)
      (record {
        values = ap (λ (c : Option Text). (load_content c).0) (s.found path ∙ p);
        result = ap (λ (c : Option Text). (load_content c).1) (s.found path ∙ p);
        no_temp = s.found (temp_path path) ∙ t;
        no_journal = s.found (journal_path path) ∙ j;
      })

-- On a disk that does not fail, loading a store takes the temporary file where it stands beside a
-- journal and the file of the store otherwise, and leaves neither a temporary file nor a journal.
pub load_from_disk-IsLoaded :
    (path : Text) (d : Disk) → IsReliable d → IsLoaded path d (load_from_disk path d)
unfolding recover_if_needed file_exists current_content
load_from_disk-IsLoaded path d h = elim (Option-cases (find (journal_path path) d.files)) [
  | inl nj ↦ elim (Option-cases (find (temp_path path) d.files)) [
    | inl nt ↦
        finished path d (d, true) (λ j. find j d.files)
          (record { disk = d; result = refl; reliable = h; found = λ j. refl })
          (rw (nj, current_content) refl) nt nj (rw (nj, nt, recover_if_needed) refl)
    | inr (t, ft) ↦
        let s = remove_tested-Stepped (temp_path path) t d h ft in
        finished path d _ _ s (rw (nj, current_content) (rw (temp_path_path path) refl))
          (rw (text_eq_refl (temp_path path)) refl) (rw (temp_journal path) nj)
          (rw (nj, ft, recover_if_needed) refl)
  ]
  | inr (j, fj) ↦ elim (Option-cases (find (temp_path path) d.files)) [
    | inl nt ↦
        let s = remove_tested-Stepped (journal_path path) j d h fj in
        finished path d _ _ s (rw (fj, nt, current_content) (rw (journal_path_path path) refl))
          (rw (journal_temp path) nt) (rw (text_eq_refl (journal_path path)) refl)
          (rw (fj, nt, recover_if_needed) refl)
    | inr (t, ft) ↦
        let s = replace-Stepped path t j d h ft fj in
        finished path d _ _ s
          (rw (fj, ft, current_content) (rw (journal_path_path path, text_eq_refl path) refl))
          (rw (journal_temp path, path_temp path, text_eq_refl (temp_path path)) refl)
          (rw (text_eq_refl (journal_path path)) refl) (rw (fj, ft, recover_if_needed) refl)
  ]
]

-- The call with the number `k` of a save is the first that fails; a write leaves `b` bytes.
abbrev pub crash_at : ℕ → ℕ → List IoOutcome
crash_at zero b = failed b ∷ []
crash_at (suc k) b = succeeded ∷ crash_at k b

-- The disk that a save leaves when it is cut off, as a new process finds it.
abbrev pub crashed : Text → MemoryKvStore → Disk → ℕ → ℕ → Disk
crashed path values d k b =
    record (persist_to_disk path values (record d { outcomes = crash_at k b })).0 { outcomes = [] }

-- What counts after a save that was cut off: the file as it was, up to the opening of the temporary
-- file; what had come of the temporary file, at its writing; the new text behind it.
abbrev pub after_crash : Option Text → Text → ℕ → ℕ → Option Text
after_crash old new k b = if ltb k 3 then old else if k == 3 then some (take b new) else some new

-- The files when the temporary one is complete.
abbrev files_at_rename : Text → MemoryKvStore → Disk → Map Text
files_at_rename path values d = insert (temp_path path) (snapshot_text values) (
    insert (temp_path path) []
      (insert (journal_path path) (journal_text path) (insert (journal_path path) [] d.files)))

replace_then_crash :
    (path content : Text) (d : Disk) (b : ℕ)
    → d.outcomes ≡ succeeded ∷ failed b ∷ []
    → find (temp_path path) d.files ≡ some content
    → then_step (rename (temp_path path) path d) (λ d'. remove_tested (journal_path path) d') ≡ (
      record { files = insert path content (erase (temp_path path) d.files); outcomes = [] },
      false,
    )
unfolding then_step rename remove_tested
replace_then_crash path content d b o f = rw (o, f) refl

persist_at_last :
    (path : Text) (values : MemoryKvStore) (d : Disk) (b : ℕ)
    → persist_to_disk path values (record d { outcomes = crash_at 5 b }) ≡ (
      record {
        files =
            insert path
              (snapshot_text values)
              (erase (temp_path path) (files_at_rename path values d));
        outcomes = [];
      },
      false,
    )
unfolding persist_to_disk write_journal write_snapshot write_file then_step open_truncated
    write_flushed
persist_at_last path values d b =
    replace_then_crash path (snapshot_text values)
      (record { files = files_at_rename path values d; outcomes = succeeded ∷ failed b ∷ [] }) b
      refl (find-insert_self (temp_path path) (snapshot_text values) _)

pub ruleset disk_laws = (map_laws, text_eq_refl)

crashed_content :
    (path : Text) (values : MemoryKvStore) (d : Disk) (k b : ℕ)
    → k < 6
    → find (temp_path path) d.files ≡ none
    → find (journal_path path) d.files ≡ none
    → current_content path (crashed path values d k b)
      ≡ after_crash (find path d.files) (snapshot_text values) k b
unfolding current_content persist_to_disk write_journal write_snapshot write_file then_step
    open_truncated write_flushed rename remove_tested
crashed_content path values d zero b h t j = rw j refl
crashed_content path values d (suc zero) b h t j =
    simp (disk_laws, journal_path_path path, journal_temp path, t)
crashed_content path values d (suc (suc zero)) b h t j =
    simp (disk_laws, journal_path_path path, journal_temp path, t)
crashed_content path values d (suc (suc (suc zero))) b h t j = simp (disk_laws, temp_journal path)
crashed_content path values d (suc (suc (suc (suc zero)))) b h t j =
    simp (disk_laws, temp_journal path)
crashed_content path values d (suc (suc (suc (suc (suc zero))))) b h t j =
    ap (λ (o : Disk × Bool). current_content path (record o.0 { outcomes = [] }))
      (persist_at_last path values d b)
    ∙ simp (disk_laws, path_journal path, path_temp path, temp_journal path)
crashed_content path values d (suc (suc (suc (suc (suc (suc k)))))) b h t j = absurd (omega arith)

-- A save that is cut off at any of its six calls, on a disk with no temporary file and no journal,
-- and then a load on a disk that does not fail: the load gives the values of the file as it was when
-- the call was one of the first three (the two of the journal and the opening of the temporary file),
-- and the new values when it was one of the last two (the renaming and the removal of the journal);
-- at the fourth, the writing of the temporary file, it gives what can be read of the bytes that were
-- written. Neither a temporary file nor a journal is left.
pub load_from_disk-crashed :
    (path : Text) (values : MemoryKvStore) (d : Disk) (k b : ℕ)
    → k < 6
    → find (temp_path path) d.files ≡ none
    → find (journal_path path) d.files ≡ none
    → let loaded = load_from_disk path (crashed path values d k b) in
      let content = after_crash (find path d.files) (snapshot_text values) k b in
      (loaded.0.values ≡ (load_content content).0)
      × (loaded.1 ≡ (load_content content).1)
      × (find (temp_path path) loaded.0.disk.files ≡ none)
      × (find (journal_path path) loaded.0.disk.files ≡ none)
load_from_disk-crashed path values d k b h t j =
    let l = load_from_disk-IsLoaded path (crashed path values d k b) refl in
    let c = crashed_content path values d k b h t j in
    (
      l.values ∙ ap (λ (o : Option Text). (load_content o).0) c,
      l.result ∙ ap (λ (o : Option Text). (load_content o).1) c,
      l.no_temp,
      l.no_journal,
    )
