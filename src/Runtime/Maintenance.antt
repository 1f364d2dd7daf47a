-- ===== src/Runtime/Maintenance.antt =====
-- The artifacts of the fallback commits in `TaskRuntime` of runtime/task_runtime.h: what becomes of
-- the finished ones. A directory is named without a slash at its
-- end; `directory_iterator` gives the files in the order of the disk.
use data_agent_system.Prelude.{
  ℕ, ◌+◌, Text, Bool, true, false, List, [], ◌∷◌, ◌++◌, Option, none, some, ◌==◌, codes, is_empty,
  if◌then◌else◌,
}
use data_agent_system.Fallback.Disk.{Disk, rename, remove_if_exists, create_directories}
use data_agent_system.Fallback.Artifact.{FallbackCommitArtifact, FallbackCommitPhase, committed}
use data_agent_system.Log.Lines.{has_char}
use data_agent_system.Fallback.Directory.{listed_paths, slash}
use data_agent_system.Fallback.Driver.{parse_file, is_terminal}
use data_agent_system.Runtime.Operations.{
  Result, threw, returned, FallbackTerminalArtifactPolicy, keep, delete, archive,
  FallbackCommitRuntimeConfig,
}

pub record FallbackArtifactMaintenanceResult : Type 0 where
  pub recovered_artifact_count : ℕ
  pub archived_artifact_count : ℕ
  pub deleted_artifact_count : ℕ
  pub kept_terminal_artifact_count : ℕ
  pub skipped_non_terminal_artifact_count : ℕ
  pub parse_failure_count : ℕ
  pub conflict_count : ℕ
  pub success : Bool
  pub reason : Text

abbrev pub fresh_maintenance : FallbackArtifactMaintenanceResult
fresh_maintenance = record {
  recovered_artifact_count = 0;
  archived_artifact_count = 0;
  deleted_artifact_count = 0;
  kept_terminal_artifact_count = 0;
  skipped_non_terminal_artifact_count = 0;
  parse_failure_count = 0;
  conflict_count = 0;
  success = true;
  reason = [];
}

-- `path.filename()`: what stands behind the last slash.
unfoldable pub filename : Text → Text
unfolding has_char
filename [] = []
filename (c ∷ text) =
    let rest = filename text in
    if has_char slash text then rest else if c == slash then text else c ∷ text

unfoldable pub policy_for :
    FallbackCommitRuntimeConfig → FallbackCommitPhase → FallbackTerminalArtifactPolicy
policy_for config committed = config.committed_artifact_policy
policy_for config _ = config.rolled_back_artifact_policy

-- `EnsureDirectory`: `false` is the exception.
unfoldable pub ensure_directory : Text → Disk → Disk × Bool
unfolding create_directories
ensure_directory path d = if is_empty path then (d, true) else create_directories path d

-- The last part of `ApplyTerminalFallbackArtifactPolicy`, whose first removal may fail.
unfoldable pub move_to_archive : Text → Text → Disk → Disk × Bool
unfolding remove_if_exists rename filename
move_to_archive archive_dir path d =
    let target = archive_dir ++ slash ∷ filename path in
    rename path target (remove_if_exists target d).0

abbrev pub failed_directory : Text → Text
failed_directory path = codes "failed to create directory " ++ path

-- `ApplyTerminalFallbackArtifactPolicy`. The message of the exception is the path's; what the system
-- adds to it is not modelled.
unfoldable pub apply_terminal_policy :
    FallbackCommitRuntimeConfig → Text → FallbackTerminalArtifactPolicy → Disk → Disk × Result Bool
unfolding ensure_directory move_to_archive remove_if_exists
apply_terminal_policy config path keep d = (d, returned true)
apply_terminal_policy config path delete d =
    let (d', ok) = remove_if_exists path d in (d', returned ok)
apply_terminal_policy config path archive d =
    let (d₁, made) = ensure_directory config.archive_dir d in
    let (d₂, ok) = move_to_archive config.archive_dir path d₁ in
    if is_empty config.archive_dir
    then (d, returned false)
    else if made
    then (d₂, returned ok)
    else (d₁, threw (failed_directory config.archive_dir))

-- `FinalizeFallbackCommitArtifact` of an artifact that is there and parses, or not.
unfoldable pub finalize_parsed :
    FallbackCommitRuntimeConfig → Text → Option FallbackCommitArtifact → Disk → Disk × Result Bool
unfolding apply_terminal_policy policy_for is_terminal
finalize_parsed config path none d = (d, returned true)
finalize_parsed config path (some artifact) d =
    if is_terminal artifact.phase
    then apply_terminal_policy config path (policy_for config artifact.phase) d
    else (d, returned true)

-- `FinalizeFallbackCommitArtifact`, with the artifact path of the transaction. Reading a file does
-- not fail.
unfoldable pub finalize_fallback_commit_artifact :
    FallbackCommitRuntimeConfig → Text → Disk → Disk × Result Bool
unfolding finalize_parsed parse_file
finalize_fallback_commit_artifact config path d =
    if is_empty path
    then (d, returned true)
    else finalize_parsed config path (parse_file path d.files) d

pub record Sweep : Type 0 where
  pub disk : Disk
  pub result : Result FallbackArtifactMaintenanceResult

unfoldable pub stop_sweep : Text → Disk → FallbackArtifactMaintenanceResult → Sweep
stop_sweep reason d r = record {
  disk = d;
  result = returned (record r { success = false; reason = reason });
}

-- The counts of a policy that was applied.
unfoldable pub count_policy :
    FallbackTerminalArtifactPolicy
    → FallbackArtifactMaintenanceResult
    → FallbackArtifactMaintenanceResult
count_policy keep r = record r { kept_terminal_artifact_count = r.kept_terminal_artifact_count + 1 }
count_policy archive r = record r { archived_artifact_count = r.archived_artifact_count + 1 }
count_policy delete r = record r { deleted_artifact_count = r.deleted_artifact_count + 1 }

-- What follows the policy in a round; `rest` is the loop over the other files.
unfoldable pub after_policy :
    Text
    → FallbackTerminalArtifactPolicy
    → Disk × Result Bool
    → FallbackArtifactMaintenanceResult
    → (Disk → FallbackArtifactMaintenanceResult → Sweep)
    → Sweep
unfolding stop_sweep count_policy
after_policy path policy (d, threw message) r rest = record { disk = d; result = threw message }
after_policy path policy (d, returned true) r rest = rest d (count_policy policy r)
after_policy path policy (d, returned false) r rest =
    stop_sweep (codes "failed to finalize fallback artifact: " ++ path) d r

unfoldable pub sweep_parsed :
    FallbackCommitRuntimeConfig
    → Text
    → Option FallbackCommitArtifact
    → Disk
    → FallbackArtifactMaintenanceResult
    → (Disk → FallbackArtifactMaintenanceResult → Sweep)
    → Sweep
unfolding stop_sweep after_policy apply_terminal_policy policy_for is_terminal
sweep_parsed config path none d r rest =
    stop_sweep (codes "failed to parse fallback artifact: " ++ path) d
      (record r { parse_failure_count = r.parse_failure_count + 1 })
sweep_parsed config path (some artifact) d r rest =
    let policy = policy_for config artifact.phase in
    if is_terminal artifact.phase
    then after_policy path policy (apply_terminal_policy config path policy d) r rest
    else rest d (record r {
      skipped_non_terminal_artifact_count = r.skipped_non_terminal_artifact_count + 1;
    })

-- The loop of `SweepTerminalFallbackArtifacts`.
unfoldable pub sweep_paths :
    FallbackCommitRuntimeConfig → List Text → Disk → FallbackArtifactMaintenanceResult → Sweep
unfolding sweep_parsed parse_file
sweep_paths config [] d r = record { disk = d; result = returned r }
sweep_paths config (path ∷ paths) d r =
    sweep_parsed config path (parse_file path d.files) d r λ d' r'. sweep_paths config paths d' r'

unfoldable pub sweep_terminal_fallback_artifacts : FallbackCommitRuntimeConfig → Disk → Sweep
unfolding sweep_paths listed_paths
sweep_terminal_fallback_artifacts config d =
    if is_empty config.artifact_dir
    then record { disk = d; result = returned fresh_maintenance }
    else sweep_paths config (listed_paths config.artifact_dir (codes ".fallback.log") d.files) d
        fresh_maintenance
