-- ===== src/Fallback/Artifact.antt =====
-- The artifact of agent_txn/fallback_commit_log.h and its text.
use Prim.Native.String.{String}
use data_agent_system.Prelude.{
  ℕ, Text, Bool, List, [], ◌∷◌, ◌++◌, length, codes, text_eq, if◌then◌else◌, ◌≡◌, refl,
}
use data_agent_system.Intent.Number.{print_ℕ}
use data_agent_system.Log.Escape.{escape, tab, newline}
use data_agent_system.Log.Lines.{flag}

pub data FallbackCommitPhase : Type 0 where
  prepared applying rolling_back committed rolled_back : FallbackCommitPhase

pub record FallbackCommitEntry : Type 0 where
  pub key : Text
  pub expected_version : ℕ
  pub target_value : Text
  pub previous_value : Text
  pub previous_version : ℕ
  pub previous_exists : Bool

pub record FallbackCommitArtifact : Type 0 where
  pub txn_id : Text
  pub task_id : Text
  pub phase : FallbackCommitPhase
  pub applied_count : ℕ
  pub entries : List FallbackCommitEntry

unfoldable pub phase_name : FallbackCommitPhase → Text
phase_name prepared = codes "PREPARED"
phase_name applying = codes "APPLYING"
phase_name rolling_back = codes "ROLLING_BACK"
phase_name committed = codes "COMMITTED"
phase_name rolled_back = codes "ROLLED_BACK"

unfoldable pub phase_from_name : Text → FallbackCommitPhase
phase_from_name name =
    if text_eq name (codes "APPLYING")
    then applying
    else if text_eq name (codes "ROLLING_BACK")
    then rolling_back
    else if text_eq name (codes "COMMITTED")
    then committed
    else if text_eq name (codes "ROLLED_BACK")
    then rolled_back
    else prepared

line : String → Text → Text
line name value = codes name ++ value ++ newline ∷ []

-- A line of the entries: six fields, with tabs between them.
unfoldable pub print_entry : FallbackCommitEntry → Text
unfolding flag
print_entry e =
    escape e.key
    ++ tab ∷ print_ℕ e.expected_version
    ++ tab ∷ escape e.target_value
    ++ tab ∷ escape e.previous_value
    ++ tab ∷ print_ℕ e.previous_version
    ++ tab ∷ flag e.previous_exists
    ++ newline ∷ []

unfoldable pub print_entries : List FallbackCommitEntry → Text
print_entries [] = []
print_entries (e ∷ entries) = print_entry e ++ print_entries entries

-- What `WriteFallbackCommitArtifact` sends to the stream.
unfoldable pub print_artifact : FallbackCommitArtifact → Text
unfolding line print_entries
print_artifact a =
    line "DAS_FALLBACK_COMMIT_V1" []
    ++ line "txn_id=" (escape a.txn_id)
    ++ line "task_id=" (escape a.task_id)
    ++ line "phase=" (phase_name a.phase)
    ++ line "applied_count=" (print_ℕ a.applied_count)
    ++ line "entry_count=" (print_ℕ (length a.entries))
    ++ line "[entries]" []
    ++ print_entries a.entries

-- A phase is read back from its name.
pub phase_from_name-phase_name :
    (phase : FallbackCommitPhase) → phase_from_name (phase_name phase) ≡ phase
unfolding phase_from_name phase_name text_eq
phase_from_name-phase_name prepared = refl
phase_from_name-phase_name applying = refl
phase_from_name-phase_name rolling_back = refl
phase_from_name-phase_name committed = refl
phase_from_name-phase_name rolled_back = refl
