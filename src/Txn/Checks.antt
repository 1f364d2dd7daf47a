-- ===== src/Txn/Checks.antt =====
-- agent_txn/commit_manager.h: the version checks and the writes that a commit makes of a winner.
use data_agent_system.Prelude.{
  ℕ, Text, Bool, true, false, List, [], ◌∷◌, ◌++◌, Option, none, some, ◌==◌, codes, if◌then◌else◌,
  map, is_empty,
}
use data_agent_system.Prelude.Map.{Map, find, insert}
use data_agent_system.Intent.Types.{IntentType, WriteIntent}
use data_agent_system.Intent.Policy.{uses_semantic_rebase, resolve_write, ResolveResult}
use data_agent_system.Cache.Entry.{ObjectCacheEntry}
use data_agent_system.Cache.ReadSet.{ReadRecord}
use data_agent_system.Storage.Interface.{VersionedValue, VersionCheck, WriteOp, VersionedKvStore}
use data_agent_system.Txn.Context.{Failure, set_failure, has_failed}

-- `return false` with the failure, or the state with which the function goes on.
pub data Attempt (A : Type 0) : Type 0 where
  refused : Failure → Attempt A
  went_on : A → Attempt A

-- The first loop: one observed version for each object that was read.
unfoldable pub collect_checks : Failure → List ReadRecord → Map ℕ → Attempt (Map ℕ)
collect_checks failure [] seen = went_on seen
collect_checks failure (read ∷ reads) seen = elim (find read.object_id seen) [
  | none ↦ collect_checks failure reads (insert read.object_id read.observed_version seen)
  | some version ↦
      let rest = collect_checks failure reads seen in
      if version == read.observed_version
      then rest
      else refused (set_failure (codes "inconsistent read versions for " ++ read.object_id) failure)
]

-- The last intent for each object.
unfoldable pub latest_intents : List WriteIntent → Map WriteIntent → Map WriteIntent
latest_intents [] latest = latest
latest_intents (intent ∷ intents) latest =
    latest_intents intents (insert intent.object_id intent latest)

-- The variables of the second loop.
pub record Resolution : Type 0 where
  pub seen : Map ℕ
  pub writes : List WriteOp
  pub failure : Failure

-- `AddOrVerifyCheck`
unfoldable pub verified : Text → ℕ → Option ℕ → Resolution → Resolution
verified object_id version none r = record r { seen = insert object_id version r.seen }
verified object_id version (some known) r = if known == version then r else record r {
  failure = set_failure (codes "conflicting expected versions for " ++ object_id) r.failure;
}

unfoldable pub add_or_verify_check : Text → ℕ → Resolution → Resolution
unfolding verified
add_or_verify_check object_id version r = verified object_id version (find object_id r.seen) r

-- The check for a write: a rebased write expects the current version, any other the version that
-- the branch saw.
unfoldable pub add_check : Bool → Text → ℕ → ℕ → Resolution → Resolution
unfolding add_or_verify_check
add_check true object_id current base r = record r { seen = insert object_id current r.seen }
add_check false object_id current base r = add_or_verify_check object_id base r

pub resolve_reason : Text → Text → Text
resolve_reason reason object_id =
    if is_empty reason
    then codes "failed to resolve write intent for " ++ object_id
    else reason ++ (codes " for " ++ object_id)

unfoldable pub push_write : Text → Text → Resolution → Attempt Resolution
push_write object_id value r =
    if has_failed r.failure
    then refused r.failure
    else went_on (record r { writes = r.writes ++ record { key = object_id; value = value } ∷ [] })

unfoldable pub use_resolved :
    ObjectCacheEntry → IntentType → VersionedValue → ResolveResult → Resolution → Attempt Resolution
unfolding add_check resolve_reason push_write
use_resolved entry intent_type current resolved r =
    if resolved.success
    then if resolved.should_write
      then push_write entry.object_id resolved.value (
          add_check (uses_semantic_rebase intent_type) entry.object_id current.version
            entry.base_version r)
      else went_on r
    else refused (set_failure (resolve_reason resolved.reason entry.object_id) r.failure)

module _ {S : Type 0} (kv : VersionedKvStore S) where
  -- One round of the second loop, with the last intent for its entry.
  unfoldable pub resolve_entry :
      S → ObjectCacheEntry → Option WriteIntent → Resolution → Attempt Resolution
  unfolding use_resolved
  resolve_entry store entry none r =
      refused (set_failure (codes "missing latest intent for " ++ entry.object_id) r.failure)
  resolve_entry store entry (some intent) r =
      let current = kv.get entry.object_id store in
      use_resolved entry intent.intent_type current (resolve_write entry intent current.value) r

  unfoldable pub resolve_entries :
      S → Map WriteIntent → List ObjectCacheEntry → Resolution → Attempt Resolution
  unfolding resolve_entry
  resolve_entries store latest [] r = went_on r
  resolve_entries store latest (entry ∷ entries) r =
      elim (resolve_entry store entry (find entry.object_id latest) r) [
        | refused failure ↦ refused failure
        | went_on r' ↦ resolve_entries store latest entries r'
      ]

unfoldable pub as_check : Text × ℕ → VersionCheck
as_check (key, version) = record { key = key; expected_version = version }

unfoldable pub checks_of : Map ℕ → List VersionCheck
unfolding as_check
checks_of = map as_check
