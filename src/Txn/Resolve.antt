-- ===== src/Txn/Resolve.antt =====
-- What the loop over the buffered entries makes of them: the keys of the writes and of the checks.
use data_agent_system.Prelude.{
  ℕ, Text, Bool, true, false, List, [], ◌∷◌, ◌++◌, Option, none, some, ◌≡◌, ◌⊎◌, ◌||◌, refl, ap,
  inl, inr, arith, text_eq, text_eq_iff, text_eq_refl, is_some, map, if◌then◌else◌, subst,
}
use data_agent_system.Prelude.Map.{Map, find, insert, find-insert}
use data_agent_system.Intent.Types.{IntentType, WriteIntent}
use data_agent_system.Intent.Policy.{uses_semantic_rebase}
use data_agent_system.Cache.Entry.{ObjectCacheEntry}
use data_agent_system.Cache.WriteBuffer.Undo.{contains, Distinct}
use data_agent_system.Storage.Interface.{VersionedValue, WriteOp, VersionedKvStore}
use data_agent_system.Storage.Batch.{find_write, DistinctKeys}
use data_agent_system.Txn.Context.{Failure}
use data_agent_system.Txn.Checks.{
  Attempt, refused, went_on, Resolution, add_check, add_or_verify_check, verified, push_write,
  use_resolved, resolve_entry, resolve_entries,
}

-- An entry adds nothing, or a write to its object with a check of the object.
pub record Adds (object_id value : Text) (r r' : Resolution) : Type 0 where
  pub writes : r'.writes ≡ r.writes ++ record { key = object_id; value = value } ∷ []
  pub seen :
      (k : Text) → is_some (find k r'.seen) ≡ (text_eq object_id k || is_some (find k r.seen))

abbrev pub Extends : Text → Resolution → Resolution → Type 0
Extends object_id r r' = (r' ≡ r) ⊎ ((value : Text) × Adds object_id value r r')

record Checks (object_id : Text) (r r' : Resolution) : Type 0 where
  writes : r'.writes ≡ r.writes
  seen : (k : Text) → is_some (find k r'.seen) ≡ (text_eq object_id k || is_some (find k r.seen))

insert-Checks :
    (object_id : Text) (version : ℕ) (r : Resolution)
    → Checks object_id r (record r { seen = insert object_id version r.seen })
insert-Checks object_id version r = record {
  writes = refl;
  seen = λ k. rw (find-insert object_id k version r.seen) (ground arith);
}

verified-Checks :
    (object_id : Text) (version : ℕ) (o : Option ℕ) (r : Resolution)
    → find object_id r.seen ≡ o
    → Checks object_id r (verified object_id version o r)
unfolding verified
verified-Checks object_id version none r e = insert-Checks object_id version r
verified-Checks object_id version (some known) r e = record {
  writes = ground arith;
  seen = λ k. ground (arith, text_eq_iff object_id k);
}

add_check-Checks :
    (sem : Bool) (object_id : Text) (current base : ℕ) (r : Resolution)
    → Checks object_id r (add_check sem object_id current base r)
unfolding add_check add_or_verify_check
add_check-Checks true object_id current base r = insert-Checks object_id current r
add_check-Checks false object_id current base r =
    verified-Checks object_id base (find object_id r.seen) r refl

push_write-eq-went_on :
    (object_id value : Text) (r r' : Resolution)
    → push_write object_id value r ≡ went_on r'
    → r' ≡ record r { writes = r.writes ++ record { key = object_id; value = value } ∷ [] }
unfolding push_write
push_write-eq-went_on object_id value r r' e = ground arith

push_write-Adds :
    (object_id value : Text) (r r' r'' : Resolution)
    → Checks object_id r r'
    → push_write object_id value r' ≡ went_on r''
    → Adds object_id value r r''
push_write-Adds object_id value r r' r'' c e =
    rw (push_write-eq-went_on object_id value r' r'' e) (record {
      writes =
          ap (λ (ws : List WriteOp). ws ++ record { key = object_id; value = value } ∷ []) c.writes;
      seen = c.seen;
    })

use_resolved-Extends :
    (entry : ObjectCacheEntry) (t : IntentType) (current : VersionedValue)
    (success should_write : Bool) (value reason : Text) (r r' : Resolution)
    → use_resolved entry t current
        (record { success = success; should_write = should_write; value = value; reason = reason })
        r
      ≡ went_on r'
    → Extends entry.object_id r r'
unfolding use_resolved
use_resolved-Extends entry t current true true value reason r r' e = inr (
  value,
  push_write-Adds entry.object_id value r _ r'
      (add_check-Checks (uses_semantic_rebase t) entry.object_id current.version entry.base_version
        r)
      e,
)
use_resolved-Extends entry t current true false value reason r r' e = inl (cc)
use_resolved-Extends entry t current false should_write value reason r r' e = cc

module _ {S : Type 0} (kv : VersionedKvStore S) (store : S) where
  pub resolve_entry-Extends :
      (entry : ObjectCacheEntry) (o : Option WriteIntent) (r r' : Resolution)
      → resolve_entry kv store entry o r ≡ went_on r'
      → Extends entry.object_id r r'
  unfolding resolve_entry
  resolve_entry-Extends entry none r r' e = cc
  resolve_entry-Extends entry (some intent) r r' e =
      use_resolved-Extends entry intent.intent_type (kv.get entry.object_id store) _ _ _ _ r r' e

-- What holds of the writes and the checks between two rounds, with the objects still to come.
pub record IsPending (ids : List Text) (r : Resolution) : Type 0 where
  pub distinct : DistinctKeys r.writes
  pub fresh : (k : Text) → contains k ids ≡ true → find_write k r.writes ≡ none
  pub checked : (k : Text) → is_some (find_write k r.writes) ≡ true → is_some (find k r.seen) ≡ true

abbrev or_else : Option Text → Option Text → Option Text
or_else none o = o
or_else (some v) o = some v

find_write-append :
    (j k value : Text) (writes : List WriteOp)
    → find_write j (writes ++ record { key = k; value = value } ∷ [])
      ≡ or_else (find_write j writes) (if text_eq k j then some value else none)
unfolding find_write
find_write-append j k value [] = refl
find_write-append j k value (w ∷ writes) = ground (arith, find_write-append j k value writes)

DistinctKeys-append :
    (k value : Text) (writes : List WriteOp)
    → DistinctKeys writes
    → find_write k writes ≡ none
    → DistinctKeys (writes ++ record { key = k; value = value } ∷ [])
unfolding find_write
DistinctKeys-append k value [] d h = (refl, tt)
DistinctKeys-append k value (w ∷ writes) d h = (
  ground (arith, find_write-append w.key k value writes, text_eq_iff w.key k, text_eq_iff k w.key),
  DistinctKeys-append k value writes d.1 (ground arith),
)

IsPending-step :
    (id : Text) (ids : List Text) (r r' : Resolution)
    → contains id ids ≡ false
    → Extends id r r'
    → IsPending (id ∷ ids) r
    → IsPending ids r'
unfolding contains
IsPending-step id ids r r' n (inl e) p =
    rw e (record {
      distinct = p.distinct;
      fresh = λ k h. p.fresh k (ground arith);
      checked = p.checked;
    })
IsPending-step id ids r r' n (inr (value, a)) p =
    let new = p.fresh id (ground (arith, text_eq_refl id)) in
    record {
      distinct = rw a.writes (DistinctKeys-append id value r.writes p.distinct new);
      fresh = λ k h.
          rw a.writes
            (ground (arith, p.fresh k, find_write-append k id value r.writes, text_eq_iff id k));
      checked = λ k.
          rw (a.writes, a.seen k)
            (λ h. ground (arith, p.checked k, find_write-append k id value r.writes));
    }

abbrev pub ids_of : List ObjectCacheEntry → List Text
ids_of = map (λ e. e.object_id)

module _ {S : Type 0} (kv : VersionedKvStore S) (store : S) (latest : Map WriteIntent) where
  pub resolve_entries-IsPending :
      (entries : List ObjectCacheEntry) (r r' : Resolution)
      → Distinct (ids_of entries)
      → IsPending (ids_of entries) r
      → resolve_entries kv store latest entries r ≡ went_on r'
      → IsPending [] r'
  unfolding resolve_entries
  resolve_entries-IsPending [] r r' d p e = subst (IsPending []) (ground arith) p
  resolve_entries-IsPending (entry ∷ entries) r r' d p e =
      cases (resolve_entry kv store entry (find entry.object_id latest) r)
        (λ m. resolve_entries-IsPending entries m r' d.1) refl e
    where
      cases :
          (a : Attempt Resolution)
          → ((m : Resolution)
              → IsPending (ids_of entries) m
              → resolve_entries kv store latest entries m ≡ went_on r'
              → IsPending [] r')
          → resolve_entry kv store entry (find entry.object_id latest) r ≡ a
          → elim a [
            | refused failure ↦ refused failure
            | went_on r' ↦ resolve_entries kv store latest entries r'
          ]
            ≡ went_on r'
          → IsPending [] r'
      cases (refused failure) rest ea ee = cc
      cases (went_on m) rest ea ee =
          rest m
            (IsPending-step entry.object_id (ids_of entries) r m d.0
              (resolve_entry-Extends kv store entry (find entry.object_id latest) r m ea) p)
            ee

-- Before the first round.
pub start_IsPending :
    (seen : Map ℕ) (failure : Failure) (ids : List Text)
    → IsPending ids (record { seen = seen; writes = []; failure = failure })
unfolding find_write
start_IsPending seen failure ids = record {
  distinct = tt;
  fresh = λ k h. refl;
  checked = λ k h. cc;
}
