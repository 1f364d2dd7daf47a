-- ===== src/Fallback/Recovered.antt =====
-- The recovery of the artifacts of a directory, from the bytes of a file to the store.
use data_agent_system.Prelude.{
  ◌+◌, ◌^◌, ◌<◌, ◌≤◌, ◌≡◌, refl, Text, true, List, ◌∷◌, ◌++◌, some, All, length,
}
use data_agent_system.Storage.Interface.{VersionedKvStore}
use data_agent_system.Storage.Contract.{IsVersioned}
use data_agent_system.Fallback.Artifact.{
  FallbackCommitArtifact, FallbackCommitEntry, FallbackCommitPhase, prepared, applying,
  rolling_back, committed, rolled_back,
}
use data_agent_system.Fallback.RoundTrip.{parse_artifact-print_artifact}
use data_agent_system.Fallback.RoundTrip.Entries.{HasVersions}
use data_agent_system.Fallback.Recovery.{FallbackRecoveryResult, World, Outcome}
use data_agent_system.Fallback.Forward.{resume_forward_fallback_commit}
use data_agent_system.Fallback.Driver.{
  recover_fallback_commit_artifacts, recover_parsed, parse_file, resume, resumed, is_terminal,
}
use data_agent_system.Fallback.Durable.{IsReliable, Holds}
use data_agent_system.Fallback.Commits.{DistinctTargets, IsWritten, IsPending}
use data_agent_system.Fallback.RollForward.{IsForwarded, resume_forward_completes}

-- The numbers of an artifact are those of the program.
pub record HasNumbers (artifact : FallbackCommitArtifact) : Type 0 where
  pub count : artifact.applied_count < 2 ^ 64
  pub enough : artifact.applied_count ≤ length artifact.entries
  pub versions : All HasVersions artifact.entries

parse_file-Holds :
    {S : Type 0} (path : Text) (artifact : FallbackCommitArtifact) (world : World S)
    → HasNumbers artifact
    → Holds path artifact world.disk
    → parse_file path world.disk.files ≡ some artifact
unfolding parse_file
parse_file-Holds path artifact world n h =
    rw (h, parse_file) (parse_artifact-print_artifact artifact n.count n.enough n.versions)

-- The commit was on its way forward.
abbrev pub IsUnderway : FallbackCommitPhase → Type 0
IsUnderway prepared = Unit
IsUnderway applying = Unit
IsUnderway _ = ⊥

module _ {S : Type 0} (kv : VersionedKvStore S) where
  recover_parsed-IsUnderway :
      (path : Text) (phase : FallbackCommitPhase) (artifact : FallbackCommitArtifact)
      (world : World S) (r : FallbackRecoveryResult)
      → artifact.phase ≡ phase
      → IsUnderway phase
      → recover_parsed kv path (some artifact) world r
        ≡ resumed (resume_forward_fallback_commit kv path artifact world r)
  unfolding recover_parsed resume is_terminal
  recover_parsed-IsUnderway path prepared artifact world r e u = rw e refl
  recover_parsed-IsUnderway path applying artifact world r e u = rw e refl
  recover_parsed-IsUnderway path rolling_back artifact world r e u = absurd u
  recover_parsed-IsUnderway path committed artifact world r e u = absurd u
  recover_parsed-IsUnderway path rolled_back artifact world r e u = absurd u

  -- The loop goes on from a recovered artifact, which it has counted.
  abbrev pub counted : Outcome S → World S × FallbackRecoveryResult
  counted o = (
    o.world,
    record o.result { recovered_artifact_count = o.result.recovered_artifact_count + 1 },
  )

  recover_round :
      (path : Text) (paths : List Text) (artifact : FallbackCommitArtifact) (world : World S)
      (r : FallbackRecoveryResult) (o : Outcome S)
      → parse_file path world.disk.files ≡ some artifact
      → recover_parsed kv path (some artifact) world r ≡ resumed o
      → o.done ≡ true
      → recover_fallback_commit_artifacts kv (path ∷ paths) (world, r)
        ≡ recover_fallback_commit_artifacts kv paths (counted o)
  unfolding recover_fallback_commit_artifacts resumed
  recover_round path paths artifact world r o p e d =
      rw (p, recover_fallback_commit_artifacts) (rw e (rw d refl))

  -- From the bytes on the disk: an artifact file of a commit that was interrupted between two writes,
  -- with the entries and the store as for the roll-forward and with 64-bit numbers, is read, and the
  -- recovery of a directory completes that commit, counts it and goes on with the other files.
  pub recover_fallback_commit_artifacts-IsForwarded :
      (laws : IsVersioned kv) (path : Text) (paths : List Text) (artifact : FallbackCommitArtifact)
      (world : World S) (r : FallbackRecoveryResult) (applied pending : List FallbackCommitEntry)
      → Holds path artifact world.disk
      → HasNumbers artifact
      → IsUnderway artifact.phase
      → artifact.entries ≡ applied ++ pending
      → DistinctTargets (applied ++ pending)
      → All (IsWritten kv world.store) applied
      → All (IsPending kv world.store) pending
      → IsReliable world.disk
      → (o : Outcome S) × IsForwarded kv path (applied ++ pending) world.store artifact o
        × (recover_fallback_commit_artifacts kv (path ∷ paths) (world, r)
            ≡ recover_fallback_commit_artifacts kv paths (counted o))
  recover_fallback_commit_artifacts-IsForwarded laws path paths artifact world r applied pending
        held n u e d w p reliable =
      let o = resume_forward_fallback_commit kv path artifact world r in
      let f =
        resume_forward_completes kv laws path artifact world r applied pending e d w p reliable in
      (
        o,
        f,
        recover_round path paths artifact world r o (parse_file-Holds path artifact world n held)
            (recover_parsed-IsUnderway path artifact.phase artifact world r refl u) f.done,
      )
