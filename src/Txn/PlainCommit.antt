-- ===== src/Txn/PlainCommit.antt =====
-- Atomicity of the fallback without an artifact, on any store that keeps the contract.
use data_agent_system.Prelude.{
  ℕ, Text, true, false, List, [], ◌∷◌, ◌++◌, none, ◌≡◌, ◌⊎◌, ◌==◌, refl, sym, ◌∙◌, inl, inr, arith,
  text_eq_iff, text_eq_refl, is_some, map, All, Bool-cases, Option-cases, next_version, ==_iff,
  codes,
}
use data_agent_system.Prelude.Map.{Map, find}
use data_agent_system.Cache.WriteBuffer.Undo.{contains, Distinct}
use data_agent_system.Storage.Interface.{VersionedValue, VersionCheck, WriteOp, VersionedKvStore}
use data_agent_system.Storage.Contract.{IsVersioned, Updated, written, missing}
use data_agent_system.Storage.Batch.{find_write, DistinctKeys, rewritten}
use data_agent_system.Txn.Context.{Failure}
use data_agent_system.Txn.Plain.{
  AppliedWrite, PlainOutcome, applied_of, undo_write, rollback_applied_writes, give_up,
  apply_writes, commit_without_batch, expected_versions,
}

-- The same value, there or not; the versions may differ.
pub record SameData (v w : VersionedValue) : Type 0 where
  pub value : v.value ≡ w.value
  pub exists : v.exists ≡ w.exists

abbrev keys_of : List AppliedWrite → List Text
keys_of = map (λ a. a.key)

module _ {S : Type 0} (kv : VersionedKvStore S) (laws : IsVersioned kv) (start : S) where
  -- A write that is in the store `s`, with what it replaced in the store `start`.
  abbrev IsPresent : S → AppliedWrite → Type 0
  IsPresent s a =
      ((kv.get a.key s).version ≡ next_version a.previous_version)
      × (a.previous_value ≡ (kv.get a.key start).value)
      × (a.previous_exists ≡ (kv.get a.key start).exists)

  -- The store `s` differs from `start` in the applied writes and in versions only.
  record IsTrail (applied : List AppliedWrite) (s : S) : Type 0 where
    distinct : Distinct (keys_of applied)
    present : All (IsPresent s) applied
    others :
        (j : Text) → contains j (keys_of applied) ≡ false → SameData (kv.get j s) (kv.get j start)

  IsPresent-Updated :
      (key : Text) (v : VersionedValue) (s s' : S) (applied : List AppliedWrite)
      → Updated kv.get key v s s'
      → contains key (keys_of applied) ≡ false
      → All (IsPresent s) applied
      → All (IsPresent s') applied
  unfolding contains
  IsPresent-Updated key v s s' [] u n p = tt
  IsPresent-Updated key v s s' (a ∷ applied) u n p = (
    ground (arith, u.at_key a.key, text_eq_iff key a.key, text_eq_iff a.key key),
    IsPresent-Updated key v s s' applied u (ground arith) p.1,
  )

  -- Taking back the newest write.
  IsTrail-tail :
      (a : AppliedWrite) (applied : List AppliedWrite) (v : VersionedValue) (s s' : S)
      → Updated kv.get a.key v s s'
      → SameData v (kv.get a.key start)
      → IsTrail (a ∷ applied) s
      → IsTrail applied s'
  unfolding contains
  IsTrail-tail a applied v s s' u same t = record {
    distinct = t.distinct.1;
    present = IsPresent-Updated a.key v s s' applied u t.distinct.0 t.present.1;
    others = λ j n. rw (u.at_key j) (ground (arith, t.others j, text_eq_iff a.key j));
  }

  undo_write-IsTrail :
      (a : AppliedWrite) (applied : List AppliedWrite) (s : S)
      → IsTrail (a ∷ applied) s
      → ((undo_write kv a s).1 ≡ true) × IsTrail applied (undo_write kv a s).0
  unfolding undo_write
  undo_write-IsTrail a applied s t = elim (Bool-cases a.previous_exists) [
    | inl e ↦
        let hit =
          laws.put_hit a.key a.previous_value (next_version a.previous_version) s t.present.0.0 in
        rw e (
          hit.0,
          IsTrail-tail a applied _ s _ hit.1
              (record { value = t.present.0.1; exists = sym e ∙ t.present.0.2 }) t,
        )
    | inr e ↦
        let hit = laws.delete_hit a.key (next_version a.previous_version) s t.present.0.0 in
        let gone : kv.get a.key start ≡ missing =
          laws.missing_lem a.key start (sym t.present.0.2 ∙ e) in
        rw e (
          hit.0,
          IsTrail-tail a applied _ s _ hit.1 (rw gone (record { value = refl; exists = refl })) t,
        )
  ]

  abbrev IsRestored : S → Type 0
  IsRestored s = (j : Text) → SameData (kv.get j s) (kv.get j start)

  rollback-IsRestored :
      (applied : List AppliedWrite) (s : S) (failure : Failure)
      → IsTrail applied s
      → IsRestored (rollback_applied_writes kv applied s failure).0
  unfolding rollback_applied_writes contains
  rollback-IsRestored [] s failure t = λ j. t.others j refl
  rollback-IsRestored (a ∷ applied) s failure t =
      let (ok, t') = undo_write-IsTrail a applied s t in
      rw ok (rollback-IsRestored applied (undo_write kv a s).0 failure t')

  -- One more write, to a key that has none yet.
  IsTrail-cons :
      (key value : Text) (applied : List AppliedWrite) (s s' : S)
      → Updated kv.get key (written value (kv.get key s).version) s s'
      → contains key (keys_of applied) ≡ false
      → IsTrail applied s
      → IsTrail (applied_of key (kv.get key s) ∷ applied) s'
  unfolding contains
  IsTrail-cons key value applied s s' u n t = record {
    distinct = (n, t.distinct);
    present = (
      (rw (u.at_key key) (rw (text_eq_refl key)), (t.others key n).value, (t.others key n).exists),
      IsPresent-Updated key _ s s' applied u n t.present,
    );
    others = λ j h. rw (u.at_key j) (ground (arith, t.others j));
  }

  -- The keys still to come have no write yet.
  abbrev AreNew : List WriteOp → List AppliedWrite → Type 0
  AreNew writes applied = All (λ w. contains w.key (keys_of applied) ≡ false) writes

  AreNew-cons :
      (key : Text) (v : VersionedValue) (writes : List WriteOp) (applied : List AppliedWrite)
      → find_write key writes ≡ none
      → AreNew writes applied
      → AreNew writes (applied_of key v ∷ applied)
  unfolding find_write contains
  AreNew-cons key v [] applied n h = tt
  AreNew-cons key v (w ∷ writes) applied n h = (
    ground (arith, text_eq_iff w.key key, text_eq_iff key w.key),
    AreNew-cons key v writes applied (ground arith) h.1,
  )

  -- Every write is done, or the data is that of the start.
  pub record IsComplete (writes : List WriteOp) (s : S) (failure : Failure) (o : PlainOutcome S)
      : Type 0 where
    pub done : o.done ≡ true
    pub store : (j : Text) → kv.get j o.store ≡ rewritten (find_write j writes) (kv.get j s)
    pub failure_kept : o.failure ≡ failure

  abbrev pub IsAtomic : List WriteOp → S → Failure → PlainOutcome S → Type 0
  IsAtomic writes s failure o =
      IsComplete writes s failure o ⊎ ((o.done ≡ false) × IsRestored o.store)

  give_up-IsRestored :
      (reason : Text) (applied : List AppliedWrite) (s : S) (failure : Failure)
      → IsTrail applied s
      → ((give_up kv reason applied s failure).done ≡ false)
        × IsRestored (give_up kv reason applied s failure).store
  unfolding give_up
  give_up-IsRestored reason applied s failure t = (refl, rollback-IsRestored applied s failure t)

  IsComplete-cons :
      (w : WriteOp) (writes : List WriteOp) (s s' : S) (failure : Failure) (o : PlainOutcome S)
      → Updated kv.get w.key (written w.value (kv.get w.key s).version) s s'
      → find_write w.key writes ≡ none
      → IsComplete writes s' failure o
      → IsComplete (w ∷ writes) s failure o
  unfolding find_write
  IsComplete-cons w writes s s' failure o u n c = record {
    done = c.done;
    store = λ j. c.store j ∙ rw (u.at_key j) (ground (arith, text_eq_iff w.key j));
    failure_kept = c.failure_kept;
  }

  apply_writes-IsAtomic :
      (expected : Map ℕ) (writes : List WriteOp) (applied : List AppliedWrite) (s : S)
      (failure : Failure)
      → DistinctKeys writes
      → AreNew writes applied
      → All (λ w. is_some (find w.key expected) ≡ true) writes
      → IsTrail applied s
      → IsAtomic writes s failure (apply_writes kv expected writes applied s failure)
  unfolding apply_writes find_write
  apply_writes-IsAtomic expected [] applied s failure d n k t =
      inl (record { done = refl; store = λ j. refl; failure_kept = refl })
  apply_writes-IsAtomic expected (w ∷ writes) applied s failure d n k t =
      elim (Option-cases (find w.key expected)) [
        | inl e ↦ cc (k.0, e)
        | inr (version, e) ↦
            rw (e, apply_writes)
              (elim (Bool-cases ((kv.get w.key s).version == version)) [
                | inl h ↦
                    let v : (kv.get w.key s).version ≡ version = (==_iff _ version).0 h in
                    let hit = laws.put_hit w.key w.value version s v in
                    let s' = (kv.put_if_version w.key version w.value s).0 in
                    let u : Updated kv.get w.key (written w.value (kv.get w.key s).version) s s' =
                      rw v hit.1 in
                    rw (h, hit.0)
                      (elim (apply_writes-IsAtomic expected writes
                        (applied_of w.key (kv.get w.key s) ∷ applied) s' failure d.1
                        (AreNew-cons w.key (kv.get w.key s) writes applied d.0 n.1) k.1
                        (IsTrail-cons w.key w.value applied s s' u n.0 t)) [
                          | inl c ↦ inl (IsComplete-cons w writes s s' failure _ u d.0 c)
                          | inr r ↦ inr r
                        ])
                | inr h ↦ rw h (
                    inr (
                      give_up-IsRestored (codes "fallback write version changed for " ++ w.key)
                        applied s failure t))
              ])
      ]

module _ {S : Type 0} (kv : VersionedKvStore S) (laws : IsVersioned kv) where
  All-AreNew : (writes : List WriteOp) → All (λ w. contains w.key [] ≡ false) writes
  unfolding contains
  All-AreNew [] = tt
  All-AreNew (w ∷ writes) = (refl, All-AreNew writes)

  start_IsTrail : (s : S) → IsTrail kv laws s [] s
  start_IsTrail s = record {
    distinct = tt;
    present = tt;
    others = λ j h. record { value = refl; exists = refl };
  }

  -- On a store that keeps the contract, for writes to distinct keys with a check for each, the
  -- fallback is atomic as far as the data goes: it does all writes, or it gives every key the value
  -- and the existence that it had.
  pub commit_without_batch-IsAtomic :
      (checks : List VersionCheck) (writes : List WriteOp) (s : S) (failure : Failure)
      → DistinctKeys writes
      → All (λ w. is_some (find w.key (expected_versions checks [])) ≡ true) writes
      → IsAtomic kv laws s writes s failure (commit_without_batch kv checks writes s failure)
  unfolding commit_without_batch
  commit_without_batch-IsAtomic checks writes s failure d k =
      apply_writes-IsAtomic kv laws s (expected_versions checks []) writes [] s failure d
        (All-AreNew writes) k (start_IsTrail s)
