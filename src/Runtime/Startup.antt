-- ===== src/Runtime/Startup.antt =====
-- `RecoverPendingFallbackCommits` and the start of `TaskRuntime` of runtime/task_runtime.h.
use data_agent_system.Prelude.{
  ◌+◌, Text, Bool, true, false, ◌++◌, Option, none, some, ◌||◌, ◌&&◌, not, codes, is_empty,
  if◌then◌else◌,
}
use data_agent_system.Storage.Interface.{VersionedKvStore}
use data_agent_system.Fallback.Disk.{Disk}
use data_agent_system.Fallback.Recovery.{FallbackRecoveryResult, World}
use data_agent_system.Txn.RecoveryManager.{recover_fallback_commits_from_directory}
use data_agent_system.Runtime.Operations.{
  Result, threw, returned, FallbackTerminalArtifactPolicy, archive, FallbackCommitRuntimeConfig,
}
use data_agent_system.Runtime.Maintenance.{
  FallbackArtifactMaintenanceResult, fresh_maintenance, ensure_directory, failed_directory,
  sweep_terminal_fallback_artifacts,
}

-- The result of the recovery, with the counts of the sweep behind it.
add_sweep :
    FallbackArtifactMaintenanceResult
    → Result FallbackArtifactMaintenanceResult
    → Result FallbackArtifactMaintenanceResult
add_sweep r (threw message) = threw message
add_sweep r (returned m) = returned (record m {
  recovered_artifact_count = r.recovered_artifact_count;
  parse_failure_count = r.parse_failure_count + m.parse_failure_count;
  conflict_count = r.conflict_count;
  reason = if m.success then r.reason else m.reason;
})

of_recovery : FallbackRecoveryResult → FallbackArtifactMaintenanceResult
of_recovery r = record fresh_maintenance {
  recovered_artifact_count = r.recovered_artifact_count;
  parse_failure_count = r.parse_failure_count;
  conflict_count = r.conflict_count;
  success = r.success;
  reason = r.reason;
}

is_archive : FallbackTerminalArtifactPolicy → Bool
is_archive archive = true
is_archive _ = false

module _ {S : Type 0} (kv : VersionedKvStore S) (config : FallbackCommitRuntimeConfig) where
  unfoldable pub recover_pending_fallback_commits :
      World S → World S × Result FallbackArtifactMaintenanceResult
  unfolding recover_fallback_commits_from_directory sweep_terminal_fallback_artifacts add_sweep
      of_recovery
  recover_pending_fallback_commits world =
      let (world', recovery) =
        recover_fallback_commits_from_directory kv config.artifact_dir world in
      let sweep = sweep_terminal_fallback_artifacts config world'.disk in
      let world'' : World S = record world' { disk = sweep.disk } in
      if is_empty config.artifact_dir
      then (world, returned fresh_maintenance)
      else if recovery.success
      then (world'', add_sweep (of_recovery recovery) sweep.result)
      else (world', returned (of_recovery recovery))

  -- The exception where the maintenance is no success, behind the words of the caller.
  require_success :
      Text
      → Result FallbackArtifactMaintenanceResult
      → Result (Option FallbackArtifactMaintenanceResult)
  require_success words (threw message) = threw message
  require_success words (returned r) =
      if r.success then returned (some r) else threw (words ++ r.reason)

  unfoldable pub uses_archive_policy : Bool
  unfolding is_archive
  uses_archive_policy =
      is_archive config.committed_artifact_policy || is_archive config.rolled_back_artifact_policy

  -- The two calls of `EnsureDirectory`; a message is an exception.
  unfoldable pub ensure_directories : Disk → Disk × Option Text
  unfolding ensure_directory uses_archive_policy
  ensure_directories d =
      let (d₁, ok₁) = ensure_directory config.artifact_dir d in
      let (d₂, ok₂) = ensure_directory config.archive_dir d₁ in
      if not ok₁
      then (d₁, some (failed_directory config.artifact_dir))
      else if uses_archive_policy && not (is_empty config.archive_dir)
      then (d₂, if ok₂ then none else some (failed_directory config.archive_dir))
      else (d₁, none)

  -- The result that the runtime keeps: `none` where there is no directory of artifacts.
  unfoldable pub initialize_fallback_commit_runtime :
      World S → World S × Result (Option FallbackArtifactMaintenanceResult)
  unfolding ensure_directories recover_pending_fallback_commits sweep_terminal_fallback_artifacts
      require_success
  initialize_fallback_commit_runtime world =
      let (d, failure) = ensure_directories world.disk in
      let world' : World S = record world { disk = d } in
      let (recovered, r) = recover_pending_fallback_commits world' in
      let sweep = sweep_terminal_fallback_artifacts config d in
      let swept : World S = record world { disk = sweep.disk } in
      if is_empty config.artifact_dir then (world, returned none) else elim failure [
        | some message ↦ (world', threw message)
        | none ↦
            if config.auto_recover_on_startup
            then (
              recovered,
              require_success (codes "failed to recover fallback commit artifacts: ") r,
            )
            else (
              swept,
              require_success (codes "failed to maintain fallback commit artifacts: ") sweep.result,
            )
      ]
