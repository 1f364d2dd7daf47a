-- ===== src/Runtime/Sweep.antt =====
-- SweepTerminalFallbackArtifacts of task_runtime.h and the commits that are not finished.
use data_agent_system.Prelude.{
  ◌≡◌, ◌≢◌, ◌⊎◌, refl, ◌∙◌, Text, Bool, true, false, List, [], ◌∷◌, ◌++◌, Option, none, some, All,
  arith, text_eq, text_eq_iff, is_empty, if◌then◌else◌, Bool-cases, inl, inr, codes,
}
use data_agent_system.Prelude.Map.{find}
use data_agent_system.Fallback.Disk.{
  Disk, rename_elsewhere, remove_if_exists_elsewhere, create_directories_elsewhere,
  remove_if_exists,
}
use data_agent_system.Fallback.Artifact.{
  FallbackCommitArtifact, FallbackCommitPhase, prepared, applying, rolling_back, committed,
  rolled_back,
}
use data_agent_system.Fallback.Directory.{slash, listed_paths}
use data_agent_system.Fallback.Driver.{parse_file, is_terminal}
use data_agent_system.Runtime.Operations.{
  Result, threw, returned, FallbackTerminalArtifactPolicy, keep, delete, archive,
  FallbackCommitRuntimeConfig,
}
use data_agent_system.Runtime.Maintenance.{
  FallbackArtifactMaintenanceResult, Sweep, filename, ensure_directory, move_to_archive,
  apply_terminal_policy, policy_for, after_policy, sweep_parsed, sweep_paths,
  sweep_terminal_fallback_artifacts, fresh_maintenance,
}

-- The name under which a file would be archived.
abbrev pub archived : FallbackCommitRuntimeConfig → Text → Text
archived config path = config.archive_dir ++ slash ∷ filename path

-- No policy moves an artifact to the archive.
abbrev pub NeverArchives : FallbackCommitRuntimeConfig → Type 0
NeverArchives config =
    (config.committed_artifact_policy ≢ archive) × (config.rolled_back_artifact_policy ≢ archive)

policy_for-NeverArchives :
    (config : FallbackCommitRuntimeConfig)
    → NeverArchives config
    → (phase : FallbackCommitPhase) → policy_for config phase ≢ archive
unfolding policy_for
policy_for-NeverArchives config h prepared = h.1
policy_for-NeverArchives config h applying = h.1
policy_for-NeverArchives config h rolling_back = h.1
policy_for-NeverArchives config h committed = h.0
policy_for-NeverArchives config h rolled_back = h.1

module _ (config : FallbackCommitRuntimeConfig) (key : Text) where
  -- Archiving the file does not overwrite the one at `key`.
  abbrev pub SparedBy : Text → Type 0
  SparedBy other = NeverArchives config ⊎ (other ≡ key) ⊎ (archived config other ≢ key)

  either :
      (v : Option Text) (b : Bool) (x y : Disk × Result Bool)
      → find key x.0.files ≡ v
      → find key y.0.files ≡ v
      → find key (if b then x else y).0.files ≡ v
  either v true x y p q = p
  either v false x y p q = q

  ensure_directory_elsewhere :
      (path : Text) (d : Disk) → find key (ensure_directory path d).0.files ≡ find key d.files
  unfolding ensure_directory
  ensure_directory_elsewhere path d = elim (Bool-cases (is_empty path)) [
    | inl e ↦ rw e refl
    | inr e ↦ rw e (create_directories_elsewhere key path d)
  ]

  move_to_archive_elsewhere :
      (path : Text) (d : Disk)
      → text_eq path key ≡ false
      → text_eq (archived config path) key ≡ false
      → find key (move_to_archive config.archive_dir path d).0.files ≡ find key d.files
  unfolding move_to_archive
  move_to_archive_elsewhere path d p a =
      rename_elsewhere key path (archived config path) (remove_if_exists (archived config path) d).0
        p a
      ∙ remove_if_exists_elsewhere key (archived config path) d a

  apply_terminal_policy_elsewhere :
      (path : Text) (policy : FallbackTerminalArtifactPolicy) (d : Disk)
      → text_eq path key ≡ false
      → (policy ≢ archive) ⊎ (text_eq (archived config path) key ≡ false)
      → find key (apply_terminal_policy config path policy d).0.files ≡ find key d.files
  unfolding apply_terminal_policy
  apply_terminal_policy_elsewhere path keep d p a = refl
  apply_terminal_policy_elsewhere path delete d p a = remove_if_exists_elsewhere key path d p
  apply_terminal_policy_elsewhere path archive d p (inl n) = absurd (n refl)
  apply_terminal_policy_elsewhere path archive d p (inr a) =
      let made = ensure_directory_elsewhere config.archive_dir d in
      either _ (is_empty config.archive_dir) _ _ refl (
        either _ (ensure_directory config.archive_dir d).1 _ _
          (move_to_archive_elsewhere path (ensure_directory config.archive_dir d).0 p a ∙ made)
          made)

  after_policy_elsewhere :
      (v : Option Text) (path : Text) (policy : FallbackTerminalArtifactPolicy)
      (o : Disk × Result Bool) (r : FallbackArtifactMaintenanceResult)
      (rest : Disk → FallbackArtifactMaintenanceResult → Sweep)
      → find key o.0.files ≡ v
      → ((d : Disk) (r : FallbackArtifactMaintenanceResult)
          → find key d.files ≡ v
          → find key (rest d r).disk.files ≡ v)
      → find key (after_policy path policy o r rest).disk.files ≡ v
  unfolding after_policy
  after_policy_elsewhere v path policy (d, threw message) r rest h k = h
  after_policy_elsewhere v path policy (d, returned true) r rest h k = k d _ h
  after_policy_elsewhere v path policy (d, returned false) r rest h k = h

  spared :
      (path : Text) (phase : FallbackCommitPhase)
      → text_eq path key ≡ false
      → SparedBy path
      → (policy_for config phase ≢ archive) ⊎ (text_eq (archived config path) key ≡ false)
  spared path phase other (inl h) = inl (policy_for-NeverArchives config h phase)
  spared path phase other (inr (inl e)) = cc ((text_eq_iff path key).1 e, other)
  spared path phase other (inr (inr h)) =
      inr (ground (arith, h, text_eq_iff (archived config path) key))

  sweep_parsed_elsewhere :
      (path : Text) (o : Option FallbackCommitArtifact) (d : Disk)
      (r : FallbackArtifactMaintenanceResult)
      (rest : Disk → FallbackArtifactMaintenanceResult → Sweep)
      → ((artifact : FallbackCommitArtifact)
          → o ≡ some artifact
          → is_terminal artifact.phase ≡ true
          → text_eq path key ≡ false)
      → SparedBy path
      → ((e : Disk) (r : FallbackArtifactMaintenanceResult)
          → find key e.files ≡ find key d.files
          → find key (rest e r).disk.files ≡ find key d.files)
      → find key (sweep_parsed config path o d r rest).disk.files ≡ find key d.files
  unfolding sweep_parsed
  sweep_parsed_elsewhere path none d r rest n a k = refl
  sweep_parsed_elsewhere path (some artifact) d r rest n a k =
      let policy = policy_for config artifact.phase in
      elim (Bool-cases (is_terminal artifact.phase)) [
        | inl e ↦ rw e (
            after_policy_elsewhere _ path policy (apply_terminal_policy config path policy d) r rest
              (apply_terminal_policy_elsewhere path policy d (n artifact refl e)
                (spared path artifact.phase (n artifact refl e) a))
              k)
        | inr e ↦ rw e (k d _ refl)
      ]

  parse_file_same :
      (d e : Disk)
      → find key e.files ≡ find key d.files
      → parse_file key e.files ≡ parse_file key d.files
  unfolding parse_file
  parse_file_same d e h = rw (h, parse_file) refl

  finished_other :
      (artifact finished : FallbackCommitArtifact) (path : Text) (d : Disk)
      → parse_file key d.files ≡ some artifact
      → is_terminal artifact.phase ≡ false
      → parse_file path d.files ≡ some finished
      → is_terminal finished.phase ≡ true
      → text_eq path key ≡ false
  finished_other artifact finished path d h t f u = elim (Bool-cases (text_eq path key)) [
    | inl e ↦ let same : path ≡ key = (text_eq_iff path key).0 e in cc
    | inr e ↦ e
  ]

  sweep_paths_elsewhere :
      (artifact : FallbackCommitArtifact)
      → is_terminal artifact.phase ≡ false
      → (paths : List Text) (d : Disk) (r : FallbackArtifactMaintenanceResult)
      → parse_file key d.files ≡ some artifact
      → All SparedBy paths
      → find key (sweep_paths config paths d r).disk.files ≡ find key d.files
  unfolding sweep_paths
  sweep_paths_elsewhere artifact t [] d r h a = refl
  sweep_paths_elsewhere artifact t (path ∷ paths) d r h a =
      sweep_parsed_elsewhere path (parse_file path d.files) d r (sweep_paths config paths)
        (λ finished f u. finished_other artifact finished path d h t f u) a.0
        λ e r' k. sweep_paths_elsewhere artifact t paths e r' (parse_file_same d e k ∙ h) a.1 ∙ k

-- A sweep leaves the file of every commit that is not finished as it is, whichever calls of the file
-- system fail, where no policy moves artifacts to the archive, or no other file of the directory has
-- in the archive the path of that file. The archive may be the directory itself.
pub sweep_terminal_fallback_artifacts_keeps :
    (config : FallbackCommitRuntimeConfig) (path : Text) (artifact : FallbackCommitArtifact)
    (d : Disk)
    → parse_file path d.files ≡ some artifact
    → is_terminal artifact.phase ≡ false
    → All (SparedBy config path) (listed_paths config.artifact_dir (codes ".fallback.log") d.files)
    → find path (sweep_terminal_fallback_artifacts config d).disk.files ≡ find path d.files
unfolding sweep_terminal_fallback_artifacts
sweep_terminal_fallback_artifacts_keeps config path artifact d h t a =
    elim (Bool-cases (is_empty config.artifact_dir)) [
      | inl e ↦ rw e refl
      | inr e ↦ rw e (
          sweep_paths_elsewhere config path artifact t
            (listed_paths config.artifact_dir (codes ".fallback.log") d.files) d fresh_maintenance h
            a)
    ]
