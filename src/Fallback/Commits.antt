-- ===== src/Fallback/Commits.antt =====
-- A fallback commit on its way: entries that are written, and entries that are still to come.
use data_agent_system.Prelude.{
  Text, false, ◌≡◌, refl, List, [], ◌∷◌, ◌++◌, All, arith, text_eq, text_eq_iff, length, drop,
}
use data_agent_system.Storage.Interface.{VersionedKvStore}
use data_agent_system.Storage.Contract.{written}
use data_agent_system.Fallback.Artifact.{FallbackCommitEntry}

-- No entry has the key.
abbrev pub Spares : Text → List FallbackCommitEntry → Type 0
Spares j = All (λ e. text_eq e.key j ≡ false)

pub Spares-append :
    (j : Text) (applied pending : List FallbackCommitEntry)
    → Spares j (applied ++ pending)
    → Spares j pending
Spares-append j [] pending n = n
Spares-append j (e ∷ applied) pending n = Spares-append j applied pending n.1

abbrev pub DistinctTargets : List FallbackCommitEntry → Type 0
DistinctTargets [] = Unit
DistinctTargets (e ∷ entries) = Spares e.key entries × DistinctTargets entries

pub DistinctTargets-append :
    (applied pending : List FallbackCommitEntry)
    → DistinctTargets (applied ++ pending)
    → DistinctTargets pending × All (λ e. Spares e.key pending) applied
DistinctTargets-append [] pending d = (d, tt)
DistinctTargets-append (e ∷ applied) pending d =
    let rest = DistinctTargets-append applied pending d.1 in
    (rest.0, (Spares-append e.key applied pending d.0, rest.1))

pub drop_prefix :
    (applied pending : List FallbackCommitEntry)
    → drop (length applied) (applied ++ pending) ≡ pending
drop_prefix [] pending = refl
drop_prefix (e ∷ applied) pending = drop_prefix applied pending

pub apart : (e f : FallbackCommitEntry) → text_eq f.key e.key ≡ false → text_eq e.key f.key ≡ false
apart e f h = ground (arith, text_eq_iff e.key f.key, text_eq_iff f.key e.key)

module _ {S : Type 0} (kv : VersionedKvStore S) where
  abbrev pub IsWritten : S → FallbackCommitEntry → Type 0
  IsWritten s e = kv.get e.key s ≡ written e.target_value e.expected_version

  -- The key is as the entry says that it was before the commit.
  pub record IsPending (s : S) (e : FallbackCommitEntry) : Type 0 where
    pub value : (kv.get e.key s).value ≡ e.previous_value
    pub version : (kv.get e.key s).version ≡ e.expected_version
    pub exists : (kv.get e.key s).exists ≡ e.previous_exists
    pub same_version : e.previous_version ≡ e.expected_version
