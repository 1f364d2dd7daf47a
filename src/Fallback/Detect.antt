-- ===== src/Fallback/Detect.antt =====
-- The prefix of an interrupted commit is detected.
use data_agent_system.Prelude.{
  suc, true, false, ◌≡◌, refl, sym, ap, ◌∙◌, List, [], ◌∷◌, ◌++◌, none, All, arith, text_eq_refl,
  length, ==_iff, ==_refl, next_version, next_version_ne, Bool-cases, inl, inr,
}
use data_agent_system.Storage.Interface.{VersionedKvStore}
use data_agent_system.Storage.Contract.{IsVersioned}
use data_agent_system.Fallback.Artifact.{FallbackCommitArtifact, FallbackCommitEntry}
use data_agent_system.Fallback.Recovery.{
  FallbackRecoveryResult, matches_target, matches_previous, committed_prefix, first_moved,
  detect_committed_prefix,
}
use data_agent_system.Fallback.Commits.{drop_prefix, IsWritten, IsPending}

module _ {S : Type 0} (kv : VersionedKvStore S) (laws : IsVersioned kv) (s : S) where
  matches_target-IsWritten :
      (e : FallbackCommitEntry) → IsWritten kv s e → matches_target e (kv.get e.key s) ≡ true
  unfolding matches_target
  matches_target-IsWritten e w =
      rw (w, ==_refl (next_version e.expected_version), text_eq_refl e.target_value) refl

  matches_target-IsPending :
      (e : FallbackCommitEntry) → IsPending kv s e → matches_target e (kv.get e.key s) ≡ false
  unfolding matches_target
  matches_target-IsPending e p = rw p.version (
      ground (
        arith,
        next_version_ne e.expected_version,
        ==_iff e.expected_version (next_version e.expected_version),
      ))

  matches_previous-IsPending :
      (e : FallbackCommitEntry) → IsPending kv s e → matches_previous e (kv.get e.key s) ≡ true
  unfolding matches_previous
  matches_previous-IsPending e p = elim (Bool-cases e.previous_exists) [
    | inl h ↦
        rw
          (
            h,
            p.exists ∙ h,
            p.version ∙ sym p.same_version,
            p.value,
            ==_refl e.previous_version,
            text_eq_refl e.previous_value,
          )
          refl
    | inr h ↦ rw (h, laws.missing_lem e.key s (p.exists ∙ h)) refl
  ]

  committed_prefix-IsPending :
      (pending : List FallbackCommitEntry)
      → All (IsPending kv s) pending
      → committed_prefix kv pending s ≡ 0
  unfolding committed_prefix
  committed_prefix-IsPending [] p = refl
  committed_prefix-IsPending (e ∷ pending) p = rw (matches_target-IsPending e p.0) refl

  committed_prefix-append :
      (applied pending : List FallbackCommitEntry)
      → All (IsWritten kv s) applied
      → All (IsPending kv s) pending
      → committed_prefix kv (applied ++ pending) s ≡ length applied
  unfolding committed_prefix
  committed_prefix-append [] pending w p = committed_prefix-IsPending pending p
  committed_prefix-append (e ∷ applied) pending w p =
      rw (matches_target-IsWritten e w.0) (ap suc (committed_prefix-append applied pending w.1 p))

  first_moved-IsPending :
      (pending : List FallbackCommitEntry)
      → All (IsPending kv s) pending
      → first_moved kv pending s ≡ none
  unfolding first_moved
  first_moved-IsPending [] p = refl
  first_moved-IsPending (e ∷ pending) p =
      rw (matches_previous-IsPending e p.0) (first_moved-IsPending pending p.1)

  pub detect_committed_prefix-append :
      (artifact : FallbackCommitArtifact) (r : FallbackRecoveryResult)
      (applied pending : List FallbackCommitEntry)
      → artifact.entries ≡ applied ++ pending
      → All (IsWritten kv s) applied
      → All (IsPending kv s) pending
      → detect_committed_prefix kv artifact s r ≡ (length applied, r)
  unfolding detect_committed_prefix
  detect_committed_prefix-append artifact r applied pending e w p =
      rw
        (
          e,
          committed_prefix-append applied pending w p,
          drop_prefix applied pending,
          first_moved-IsPending pending p,
        )
        refl
