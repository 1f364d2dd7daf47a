-- ===== src/Fallback/Driver.antt =====
-- `RecoverFallbackCommitArtifacts` of agent_txn/fallback_commit_recovery.h
use data_agent_system.Prelude.{
  ◌+◌, Text, Bool, true, false, List, [], ◌∷◌, ◌++◌, Option, none, some, codes, if◌then◌else◌,
}
use data_agent_system.Prelude.Map.{Map, find}
use data_agent_system.Storage.Interface.{VersionedKvStore}
use data_agent_system.Fallback.Artifact.{
  FallbackCommitArtifact, FallbackCommitPhase, rolling_back, committed, rolled_back,
}
use data_agent_system.Fallback.Parser.{parse_artifact}
use data_agent_system.Fallback.Recovery.{FallbackRecoveryResult, World, Outcome, failed_with}
use data_agent_system.Fallback.Forward.{resume_forward_fallback_commit}
use data_agent_system.Fallback.Backward.{resume_rollback_fallback_commit}

-- `ParseFallbackCommitArtifact`: `none` for a file that does not open or does not parse.
unfoldable pub parse_file : Text → Map Text → Option FallbackCommitArtifact
unfolding parse_artifact
parse_file path files = elim (find path files) [
  | none ↦ none
  | some content ↦ parse_artifact content
]

unfoldable pub is_terminal : FallbackCommitPhase → Bool
is_terminal committed = true
is_terminal rolled_back = true
is_terminal _ = false

-- What a round of the loop leaves, and whether the loop goes on.
pub record Round (S : Type 0) : Type 0 where
  pub goes_on : Bool
  pub world : World S
  pub result : FallbackRecoveryResult

module _ {S : Type 0} where
  unfoldable pub resumed : Outcome S → Round S
  resumed o = record {
    goes_on = o.done;
    world = o.world;
    result =
        if o.done
        then record o.result { recovered_artifact_count = o.result.recovered_artifact_count + 1 }
        else o.result;
  }

module _ {S : Type 0} (kv : VersionedKvStore S) where
  unfoldable pub resume :
      Text → FallbackCommitArtifact → World S → FallbackRecoveryResult → Outcome S
  unfolding resume_forward_fallback_commit resume_rollback_fallback_commit
  resume path artifact world r = elim artifact.phase [
    | rolling_back ↦ resume_rollback_fallback_commit kv path artifact world r
    | _ ↦ resume_forward_fallback_commit kv path artifact world r
  ]

  unfoldable pub recover_parsed :
      Text → Option FallbackCommitArtifact → World S → FallbackRecoveryResult → Round S
  unfolding resume resumed is_terminal failed_with
  recover_parsed path none world r = record {
    goes_on = false;
    world = world;
    result =
        failed_with (codes "failed to parse fallback artifact: " ++ path)
          (record r { parse_failure_count = r.parse_failure_count + 1 });
  }
  recover_parsed path (some artifact) world r =
      if is_terminal artifact.phase
      then record {
        goes_on = true;
        world = world;
        result = record r {
          skipped_terminal_artifact_count = r.skipped_terminal_artifact_count + 1;
        };
      }
      else resumed (resume path artifact world r)

  unfoldable pub recover_fallback_commit_artifacts :
      List Text → World S × FallbackRecoveryResult → World S × FallbackRecoveryResult
  unfolding recover_parsed parse_file
  recover_fallback_commit_artifacts [] state = state
  recover_fallback_commit_artifacts (path ∷ paths) (world, r) =
      let round = recover_parsed path (parse_file path world.disk.files) world r in
      let rest = recover_fallback_commit_artifacts paths (round.world, round.result) in
      if round.goes_on then rest else (round.world, round.result)
