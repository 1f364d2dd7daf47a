-- ===== src/Txn/RecoveryManager.antt =====
-- agent_txn/recovery_manager.h, with the two calls of agent_txn/agent_txn_manager.h that lead to it.
use data_agent_system.Prelude.{Text, List, codes}
use data_agent_system.Prelude.Map.{Map}
use data_agent_system.Storage.Interface.{VersionedKvStore}
use data_agent_system.Log.Recovery.{RecoveryResult, recover_committed_writes}
use data_agent_system.Log.Recovery as Log
use data_agent_system.Fallback.Directory.{list_paths_with_suffix}
use data_agent_system.Fallback.Recovery.{FallbackRecoveryResult, World, fresh_result}
use data_agent_system.Fallback.Driver.{recover_fallback_commit_artifacts}

unfoldable pub list_commit_logs : Text → Map Text → List Text
unfolding list_paths_with_suffix
list_commit_logs commit_log_dir = list_paths_with_suffix commit_log_dir (codes ".commit.log")

unfoldable pub list_fallback_commit_artifacts : Text → Map Text → List Text
unfolding list_paths_with_suffix
list_fallback_commit_artifacts artifact_dir =
    list_paths_with_suffix artifact_dir (codes ".fallback.log")

module _ {S : Type 0} (kv : VersionedKvStore S) where
  unfoldable pub recover_from_directory : Text → Map Text → S → S × RecoveryResult
  unfolding list_commit_logs recover_committed_writes
  recover_from_directory commit_log_dir files store =
      recover_committed_writes kv files (list_commit_logs commit_log_dir files)
        (store, Log.fresh_result)

  unfoldable pub recover_fallback_commits_from_directory :
      Text → World S → World S × FallbackRecoveryResult
  unfolding list_fallback_commit_artifacts recover_fallback_commit_artifacts
  recover_fallback_commits_from_directory artifact_dir world =
      recover_fallback_commit_artifacts kv
        (list_fallback_commit_artifacts artifact_dir world.disk.files) (world, fresh_result)
