-- ===== src/Fallback/Durable.antt =====
-- The replacement of an artifact on a disk that does not fail.
use Prim.Native.String.{String}
use data_agent_system.Prelude.{Text, true, ◌≡◌, refl, [], some}
use data_agent_system.Prelude.Map.{find, insert, find-insert_self}
use data_agent_system.Fallback.Disk.{Disk, open_truncated, write_flushed, rename}
use data_agent_system.Fallback.Artifact.{FallbackCommitArtifact, print_artifact}
use data_agent_system.Fallback.Persist.{write_artifact, temp_path}
use data_agent_system.Fallback.Recovery.{World, FallbackRecoveryResult, Outcome, persist}

-- No call fails any more.
abbrev pub IsReliable : Disk → Type 0
IsReliable d = d.outcomes ≡ []

-- The file at the path is the text of the artifact.
abbrev pub Holds : Text → FallbackCommitArtifact → Disk → Type 0
Holds path artifact d = find path d.files ≡ some (print_artifact artifact)

write_artifact-Holds :
    (artifact : FallbackCommitArtifact) (path : Text) (d : Disk)
    → IsReliable d
    → ((write_artifact artifact path d).1 ≡ true)
      × IsReliable (write_artifact artifact path d).0
      × Holds path artifact (write_artifact artifact path d).0
unfolding write_artifact open_truncated write_flushed rename
write_artifact-Holds artifact path d h =
    rw
      (
        h,
        find-insert_self (temp_path path) (print_artifact artifact)
            (insert (temp_path path) [] d.files),
      )
      (refl, refl, find-insert_self path (print_artifact artifact) _)

-- What `persist` hands on.
pub record IsPersisted {S : Type 0} (path : Text) (artifact : FallbackCommitArtifact)
    (world w : World S) : Type 0 where
  pub store : w.store ≡ world.store
  pub reliable : IsReliable w.disk
  pub held : Holds path artifact w.disk

pub persist_succeeds :
    {S : Type 0} (reason : String) (path : Text) (artifact : FallbackCommitArtifact)
    (world : World S) (r : FallbackRecoveryResult) (next : World S → Outcome S)
    → IsReliable world.disk
    → (w : World S) × (persist reason path artifact world r next ≡ next w)
      × IsPersisted path artifact world w
unfolding persist
persist_succeeds reason path artifact world r next h =
    let (ok, reliable, held) = write_artifact-Holds artifact path world.disk h in
    (
      record world { disk = (write_artifact artifact path world.disk).0 },
      rw ok refl,
      record { store = refl; reliable = reliable; held = held },
    )
