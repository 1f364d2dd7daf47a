-- ===== src/Fallback/Persist.antt =====
-- `WriteFallbackCommitArtifact`: the artifact replaces the file at its path by way of a temporary
-- file.
use data_agent_system.Prelude.{Text, Bool, true, false, ◌++◌, codes}
use data_agent_system.Fallback.Disk.{Disk, open_truncated, write_flushed, rename, remove}
use data_agent_system.Fallback.Artifact.{FallbackCommitArtifact, print_artifact}

abbrev pub temp_path : Text → Text
temp_path output_path = output_path ++ codes ".tmp"

-- The steps behind `is_open`, the `good` test and the `rename`.
finish_rename : Text → Disk × Bool → Disk × Bool
finish_rename temp (d, true) = (d, true)
finish_rename temp (d, false) = (remove temp d, false)

finish_write : Text → Text → Disk × Bool → Disk × Bool
unfolding finish_rename
finish_write temp output_path (d, true) = finish_rename temp (rename temp output_path d)
finish_write temp output_path (d, false) = (remove temp d, false)

finish_open : FallbackCommitArtifact → Text → Disk × Bool → Disk × Bool
unfolding finish_write
finish_open artifact output_path (d, true) =
    finish_write (temp_path output_path) output_path
      (write_flushed (temp_path output_path) (print_artifact artifact) d)
finish_open artifact output_path (d, false) = (d, false)

unfoldable pub write_artifact : FallbackCommitArtifact → Text → Disk → Disk × Bool
unfolding finish_open
write_artifact artifact output_path d =
    finish_open artifact output_path (open_truncated (temp_path output_path) d)
