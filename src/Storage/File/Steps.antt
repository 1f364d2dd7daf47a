-- ===== src/Storage/File/Steps.antt =====
-- The steps of `PersistToDisk` on a disk, and the three paths of a store.
use data_agent_system.Prelude.{
  Text, Bool, Option, if◌then◌else◌, true, false, ◌≡◌, refl, ◌∙◌, [], ◌∷◌, ◌++◌, some, none, arith,
  text_eq, text_eq_iff, codes, text_eq_refl, ==_refl,
}
use data_agent_system.Prelude.Map.{find, insert, erase, find-insert, find-erase}
use data_agent_system.Fallback.Disk.{Disk, open_truncated, write_flushed, rename, remove_tested}
use data_agent_system.Fallback.Durable.{IsReliable}
use data_agent_system.Storage.Memory.{MemoryKvStore}
use data_agent_system.Storage.File.{
  temp_path, journal_path, write_file, write_journal, write_snapshot, persist_to_disk, then_step,
  snapshot_text, journal_text,
}

text_eq_longer : (path : Text) (c : _) (s : Text) → text_eq path (path ++ c ∷ s) ≡ false
unfolding text_eq
text_eq_longer [] c s = refl
text_eq_longer (d ∷ path) c s = rw (==_refl d) (text_eq_longer path c s)

text_eq_suffixes : (path s t : Text) → text_eq (path ++ s) (path ++ t) ≡ text_eq s t
unfolding text_eq
text_eq_suffixes [] s t = refl
text_eq_suffixes (d ∷ path) s t = rw (==_refl d) (text_eq_suffixes path s t)

text_eq_flip : (s t : Text) → text_eq s t ≡ false → text_eq t s ≡ false
text_eq_flip s t h = ground (arith, text_eq_iff s t, text_eq_iff t s)

-- The three paths are three files.
pub path_temp : (path : Text) → text_eq path (temp_path path) ≡ false
path_temp path = text_eq_longer path b'.' (codes "tmp")

pub temp_path_path : (path : Text) → text_eq (temp_path path) path ≡ false
temp_path_path path = text_eq_flip path (temp_path path) (path_temp path)

pub path_journal : (path : Text) → text_eq path (journal_path path) ≡ false
path_journal path = text_eq_longer path b'.' (codes "journal")

pub journal_path_path : (path : Text) → text_eq (journal_path path) path ≡ false
journal_path_path path = text_eq_flip path (journal_path path) (path_journal path)

pub temp_journal : (path : Text) → text_eq (temp_path path) (journal_path path) ≡ false
unfolding text_eq
temp_journal path = text_eq_suffixes path (codes ".tmp") (codes ".journal")

pub journal_temp : (path : Text) → text_eq (journal_path path) (temp_path path) ≡ false
journal_temp path = text_eq_flip _ _ (temp_journal path)

-- A step that has not failed, on a disk that does not fail, and the files behind it.
pub record Stepped (step : Disk × Bool) (files : Text → Option Text) : Type 0 where
  pub disk : Disk
  pub result : step ≡ (disk, true)
  pub reliable : IsReliable disk
  pub found : (j : Text) → find j disk.files ≡ files j

pub write_file-Stepped :
    (path content : Text) (d : Disk)
    → IsReliable d
    → Stepped
        (write_file path content d)
        (λ j. if text_eq path j then some content else find j d.files)
unfolding write_file then_step open_truncated write_flushed
write_file-Stepped path content d h = record {
  disk = record { files = insert path content (insert path [] d.files); outcomes = [] };
  result = rw h refl;
  reliable = refl;
  found = λ j.
      find-insert path j content (insert path [] d.files)
      ∙ rw (find-insert path j [] d.files) (ground arith);
}

pub rename-Stepped :
    (from to content : Text) (d : Disk)
    → IsReliable d
    → find from d.files ≡ some content
    → Stepped (rename from to d) (λ j.
      if text_eq to j then some content else if text_eq from j then none else find j d.files)
unfolding rename
rename-Stepped from to content d h f = record {
  disk = record { files = insert to content (erase from d.files); outcomes = [] };
  result = rw (h, f) refl;
  reliable = refl;
  found = λ j. find-insert to j content (erase from d.files) ∙ rw (find-erase from j d.files) refl;
}

pub remove_tested-Stepped :
    (path content : Text) (d : Disk)
    → IsReliable d
    → find path d.files ≡ some content
    → Stepped (remove_tested path d) (λ j. if text_eq path j then none else find j d.files)
unfolding remove_tested
remove_tested-Stepped path content d h f = record {
  disk = record { files = erase path d.files; outcomes = [] };
  result = rw (h, f) refl;
  reliable = refl;
  found = λ j. find-erase path j d.files;
}

-- The two last steps, of a save and of the recovery: the temporary file takes the place of the
-- store's, and the journal goes.
pub replace-Stepped :
    (path content journal : Text) (d : Disk)
    → IsReliable d
    → find (temp_path path) d.files ≡ some content
    → find (journal_path path) d.files ≡ some journal
    → Stepped
        (then_step (rename (temp_path path) path d) (λ d'. remove_tested (journal_path path) d'))
        (λ j.
          if text_eq (journal_path path) j
          then none
          else if text_eq path j
          then some content
          else if text_eq (temp_path path) j
          then none
          else find j d.files)
unfolding then_step
replace-Stepped path content journal d h t e =
    let r = rename-Stepped (temp_path path) path content d h t in
    let m =
      remove_tested-Stepped (journal_path path) journal r.disk r.reliable
        (r.found (journal_path path) ∙ rw (path_journal path, temp_journal path) e) in
    record {
      disk = m.disk;
      result = rw r.result m.result;
      reliable = m.reliable;
      found = λ j. m.found j ∙ rw (r.found j) refl;
    }

-- On a disk that does not fail, the file of the store is replaced and the other two are gone.
pub record IsSaved (path content : Text) (d : Disk) : Type 0 where
  pub reliable : IsReliable d
  pub held : find path d.files ≡ some content
  pub no_temp : find (temp_path path) d.files ≡ none
  pub no_journal : find (journal_path path) d.files ≡ none

pub persist_to_disk-IsSaved :
    (path : Text) (values : MemoryKvStore) (d : Disk)
    → IsReliable d
    → ((persist_to_disk path values d).1 ≡ true)
      × IsSaved path (snapshot_text values) (persist_to_disk path values d).0
unfolding persist_to_disk write_journal write_snapshot then_step
persist_to_disk-IsSaved path values d h =
    let j = write_file-Stepped (journal_path path) (journal_text path) d h in
    let t = write_file-Stepped (temp_path path) (snapshot_text values) j.disk j.reliable in
    let r =
      replace-Stepped path (snapshot_text values) (journal_text path) t.disk t.reliable
        (t.found (temp_path path) ∙ rw (text_eq_refl (temp_path path)) refl)
        (t.found (journal_path path)
          ∙ rw (temp_journal path)
              (j.found (journal_path path) ∙ rw (text_eq_refl (journal_path path)) refl)) in
    rw j.result (
      rw t.result (
        rw r.result (
          refl,
          record {
            reliable = r.reliable;
            held = r.found path ∙ rw (journal_path_path path, text_eq_refl path) refl;
            no_temp =
                r.found (temp_path path)
                ∙ rw (journal_temp path, path_temp path, text_eq_refl (temp_path path)) refl;
            no_journal = r.found (journal_path path) ∙ rw (text_eq_refl (journal_path path)) refl;
          },
        )))
