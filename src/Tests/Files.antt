-- ===== src/Tests/Files.antt =====
-- Artifacts and the file store at concrete inputs.
use mathlib.Core.List.{Permᴰ}
use data_agent_system.Prelude.{
  inl, inr, true, ◌≡◌, refl, arith, some, none, [], ◌∷◌, codes, text_eq,
}
use data_agent_system.Prelude.Map.{find}
use data_agent_system.Fallback.Disk.{Disk}
use data_agent_system.Fallback.Artifact.{print_artifact}
use data_agent_system.Fallback.Parser.{parse_artifact}
use data_agent_system.Fallback.Recovery.{World, Outcome, fresh_result}
use data_agent_system.Fallback.RoundTrip.{parse_artifact-print_artifact}
use data_agent_system.Fallback.Bounds.{parse_artifact-HasNumbers}
use data_agent_system.Fallback.Driver.{recover_fallback_commit_artifacts}
use data_agent_system.Fallback.Recovered.{
  HasNumbers, counted, recover_fallback_commit_artifacts-IsForwarded,
}
use data_agent_system.Fallback.RollForward.{IsForwarded}
use data_agent_system.Storage.Memory as Memory
use data_agent_system.Storage.Memory.{MemoryKvStore, memory_kv_store}
use data_agent_system.Storage.Laws.{memory-IsVersioned}
use data_agent_system.Storage.File.{
  FileKvStore, put, put_if_version, delete_if_version, batch_put_if_version, snapshot_text,
  load_content, load_from_disk, temp_path, journal_path,
}
use data_agent_system.Storage.File.Agreement.{Agrees, file_kv_store-Agrees}
use data_agent_system.Storage.File.Reload.{load_content-snapshot_text}
use data_agent_system.Storage.File.Crash.{crashed, after_crash, load_from_disk-crashed}
use data_agent_system.Prelude.{◌≢◌, text_eq_iff, Text, All, false}
use data_agent_system.Fallback.Artifact.{FallbackCommitArtifact, committed}
use data_agent_system.Fallback.Driver.{parse_file, is_terminal}
use data_agent_system.Fallback.Directory.{listed_paths, is_listed}
use data_agent_system.Runtime.Operations.{FallbackCommitRuntimeConfig, archive, delete}
use data_agent_system.Runtime.Maintenance.{filename, sweep_terminal_fallback_artifacts}
use data_agent_system.Runtime.Sweep.{SparedBy, sweep_terminal_fallback_artifacts_keeps}
use data_agent_system.Prelude.{◌∷◌}
use data_agent_system.Fallback.Directory.{list_paths_with_suffix}
use data_agent_system.Fallback.Directory.Order.{list_paths_with_suffix-perm}
use data_agent_system.Tests.Data.{note, store, check, note_write}
use data_agent_system.Tests.Runtime.{
  first_entry, second_entry, interrupted, interrupted_distinct, first_entry-IsWritten,
  second_entry-IsPending,
}

parse_artifact-print_artifact_example :
    parse_artifact (print_artifact interrupted) ≡ some interrupted
parse_artifact-print_artifact_example =
    parse_artifact-print_artifact interrupted (omega arith) (omega arith)
      ((omega arith, omega arith), ((omega arith, omega arith), tt))

interrupted_numbers : HasNumbers interrupted
interrupted_numbers = record {
  count = omega arith;
  enough = omega arith;
  versions = ((omega arith, omega arith), ((omega arith, omega arith), tt));
}

parse_artifact-HasNumbers_example : HasNumbers interrupted
parse_artifact-HasNumbers_example =
    parse_artifact-HasNumbers (print_artifact interrupted) interrupted (
      parse_artifact-print_artifact interrupted (omega arith) (omega arith)
        ((omega arith, omega arith), ((omega arith, omega arith), tt)))

abbrev artifact_world : World MemoryKvStore
artifact_world = record {
  store = store;
  disk = record { files = (codes "a", print_artifact interrupted) ∷ []; outcomes = [] };
}

artifact_held : find (codes "a") artifact_world.disk.files ≡ some (print_artifact interrupted)
unfolding find text_eq
artifact_held = refl

recover_fallback_commit_artifacts-IsForwarded_example :
    (o : Outcome MemoryKvStore) × IsForwarded memory_kv_store
      (codes "a")
      (first_entry ∷ second_entry ∷ [])
      store
      interrupted
      o
    × (recover_fallback_commit_artifacts memory_kv_store
          (codes "a" ∷ [])
          (artifact_world, fresh_result)
        ≡ recover_fallback_commit_artifacts memory_kv_store [] (counted memory_kv_store o))
recover_fallback_commit_artifacts-IsForwarded_example =
    recover_fallback_commit_artifacts-IsForwarded memory_kv_store memory-IsVersioned (codes "a") []
      interrupted artifact_world fresh_result (first_entry ∷ []) (second_entry ∷ []) artifact_held
      interrupted_numbers tt refl interrupted_distinct first_entry-IsWritten second_entry-IsPending
      refl

abbrev file_store : FileKvStore
file_store = record { values = store; disk = record { files = []; outcomes = [] } }

file_kv_store-Agrees_example :
    Agrees
      (codes "s")
      (put (codes "s") note (codes "x") file_store)
      (Memory.put note (codes "x") store)
    × Agrees
        (codes "s")
        (put_if_version (codes "s") note 2 (codes "x") file_store)
        (Memory.put_if_version note 2 (codes "x") store)
    × Agrees
        (codes "s")
        (delete_if_version (codes "s") note 2 file_store)
        (Memory.delete_if_version note 2 store)
    × Agrees
        (codes "s")
        (batch_put_if_version (codes "s") (check ∷ []) (note_write ∷ []) file_store)
        (Memory.batch_put_if_version (check ∷ []) (note_write ∷ []) store)
file_kv_store-Agrees_example =
    file_kv_store-Agrees (codes "s") file_store refl note (codes "x") 2 (check ∷ [])
      (note_write ∷ [])

load_content-snapshot_text_example : load_content (some (snapshot_text store)) ≡ (store, true)
unfolding find
load_content-snapshot_text_example =
    load_content-snapshot_text store ((omega arith, refl), tt) (refl, tt)

abbrev saved_disk : Disk
saved_disk = record { files = (codes "s", snapshot_text store) ∷ []; outcomes = [] }

no_temp : find (temp_path (codes "s")) saved_disk.files ≡ none
unfolding find text_eq
no_temp = refl

no_journal : find (journal_path (codes "s")) saved_disk.files ≡ none
unfolding find text_eq
no_journal = refl

load_from_disk-crashed_example :
    let loaded = load_from_disk (codes "s") (crashed (codes "s") [] saved_disk 3 4) in
    let content = after_crash (find (codes "s") saved_disk.files) (snapshot_text []) 3 4 in
    (loaded.0.values ≡ (load_content content).0)
    × (loaded.1 ≡ (load_content content).1)
    × (find (temp_path (codes "s")) loaded.0.disk.files ≡ none)
    × (find (journal_path (codes "s")) loaded.0.disk.files ≡ none)
load_from_disk-crashed_example =
    load_from_disk-crashed (codes "s") [] saved_disk 3 4 (omega arith) no_temp no_journal

-- A directory with the artifact of an interrupted commit and that of a finished one, which a sweep
-- is to move to the archive, the directory itself.
abbrev archiving : FallbackCommitRuntimeConfig
archiving = record {
  artifact_dir = codes "art";
  archive_dir = codes "art";
  auto_recover_on_startup = true;
  committed_artifact_policy = archive;
  rolled_back_artifact_policy = delete;
}

abbrev unfinished_path : Text
unfinished_path = codes "art/a.fallback.log"

abbrev finished : FallbackCommitArtifact
finished = record interrupted { phase = committed; applied_count = 2 }

abbrev unfinished_file : Text × Text
unfinished_file = (unfinished_path, print_artifact interrupted)

abbrev finished_file : Text × Text
finished_file = (codes "art/b.fallback.log", print_artifact finished)

abbrev artifact_disk : Disk
artifact_disk = record { files = unfinished_file ∷ finished_file ∷ []; outcomes = [] }

unfinished-parse_file : parse_file unfinished_path artifact_disk.files ≡ some interrupted
unfolding parse_file find text_eq
unfinished-parse_file =
    parse_artifact-print_artifact interrupted (omega arith) (omega arith)
      ((omega arith, omega arith), ((omega arith, omega arith), tt))

apart : (s t : Text) → text_eq s t ≡ false → s ≢ t
apart s t h e = cc ((text_eq_iff s t).1 e, h)

archived_apart :
    All
      (SparedBy archiving unfinished_path)
      (listed_paths archiving.artifact_dir (codes ".fallback.log") artifact_disk.files)
unfolding listed_paths is_listed filename text_eq
archived_apart = (inr (inl refl), (inr (inr (apart _ _ refl)), tt))

sweep_terminal_fallback_artifacts_keeps_example :
    find unfinished_path (sweep_terminal_fallback_artifacts archiving artifact_disk).disk.files
    ≡ find unfinished_path artifact_disk.files
unfolding is_terminal
sweep_terminal_fallback_artifacts_keeps_example =
    sweep_terminal_fallback_artifacts_keeps archiving unfinished_path interrupted artifact_disk
      unfinished-parse_file refl archived_apart

list_paths_with_suffix-perm_example :
    list_paths_with_suffix
      (codes "art")
      (codes ".fallback.log")
      (unfinished_file ∷ finished_file ∷ [])
    ≡ list_paths_with_suffix
        (codes "art")
        (codes ".fallback.log")
        (finished_file ∷ unfinished_file ∷ [])
list_paths_with_suffix-perm_example =
    list_paths_with_suffix-perm (codes "art") (codes ".fallback.log")
      (unfinished_file ∷ finished_file ∷ []) (finished_file ∷ unfinished_file ∷ [])
      ∣ Permᴰ.swap refl refl ∣₁
