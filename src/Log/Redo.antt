-- ===== src/Log/Redo.antt =====
-- What the recovery from a commit log does to a store in which some of its writes are missing.
use data_agent_system.Prelude.{
  ap, ℕ, ◌+◌, Bool, Text, true, false, ◌≡◌, refl, ◌∙◌, List, [], ◌∷◌, All, inl, inr, ◌⊎◌, arith,
  text_eq, text_eq_iff, text_eq_refl, length, next_version, next_version_ne, ==_refl, ==_iff, ◌==◌,
  ◌&&◌, if◌then◌else◌,
}
use data_agent_system.Storage.Interface.{VersionedKvStore}
use data_agent_system.Storage.Contract.{IsVersioned, written}
use data_agent_system.Log.Artifact.{ParsedCommitLogEntry}
use data_agent_system.Log.Recovery.{RecoveryResult, is_written, recover_entry, recover_entries}

-- No entry has the key.
abbrev pub Unnamed : Text → List ParsedCommitLogEntry → Type 0
Unnamed j = All (λ e. text_eq e.key j ≡ false)

abbrev pub DistinctEntries : List ParsedCommitLogEntry → Type 0
DistinctEntries [] = Unit
DistinctEntries (e ∷ entries) = Unnamed e.key entries × DistinctEntries entries

moved : (v : ℕ) → (v == next_version v) ≡ false
moved v = ground (arith, next_version_ne v, ==_iff v (next_version v))

&&_false : (b : Bool) → (b && false) ≡ false
&&_false true = refl
&&_false false = refl

apart : (e f : ParsedCommitLogEntry) → text_eq f.key e.key ≡ false → text_eq e.key f.key ≡ false
apart e f h = ground (arith, text_eq_iff e.key f.key, text_eq_iff f.key e.key)

module _ {S : Type 0} (kv : VersionedKvStore S) (laws : IsVersioned kv) where
  abbrev pub IsWritten : S → ParsedCommitLogEntry → Type 0
  IsWritten s e = kv.get e.key s ≡ written e.value e.expected_version

  -- The write is in the store, or the key still has the version that the write expects.
  abbrev pub IsReady : S → ParsedCommitLogEntry → Type 0
  IsReady s e = IsWritten s e ⊎ ((kv.get e.key s).version ≡ e.expected_version)

  -- What one round leaves.
  record IsStep (e : ParsedCommitLogEntry) (s : S) (r : RecoveryResult) (o : S × RecoveryResult)
      : Type 0 where
    success : o.1.success ≡ r.success
    get :
        (j : Text)
        → kv.get j o.0
          ≡ (if text_eq e.key j then written e.value e.expected_version else kv.get j s)
    count :
        o.1.applied_entry_count + o.1.skipped_committed_entry_count
        ≡ r.applied_entry_count + r.skipped_committed_entry_count + 1

  recover_entry-IsStep :
      (e : ParsedCommitLogEntry) (s : S) (r : RecoveryResult)
      → IsReady s e
      → IsStep e s r (recover_entry kv e (s, r))
  unfolding recover_entry is_written
  recover_entry-IsStep e s r (inl w) =
      rw (w, ==_refl (next_version e.expected_version), text_eq_refl e.value)
        (record {
          success = refl;
          get = λ j. ground (arith, text_eq_iff e.key j);
          count = omega arith;
        })
  recover_entry-IsStep e s r (inr v) =
      let hit = laws.put_hit e.key e.value e.expected_version s v in
      rw (v, moved e.expected_version, hit.0, &&_false (kv.get e.key s).exists)
        (record { success = refl; get = λ j. hit.1.at_key j; count = omega arith })

  -- The entries that a round leaves ready.
  IsReady-after :
      (e : ParsedCommitLogEntry) (s : S) (r : RecoveryResult) (o : S × RecoveryResult)
      (entries : List ParsedCommitLogEntry)
      → IsStep e s r o
      → Unnamed e.key entries
      → All (IsReady s) entries
      → All (IsReady o.0) entries
  IsReady-after e s r o [] t u h = tt
  IsReady-after e s r o (f ∷ entries) t u h = (
    elim h.0 [
      | inl w ↦ inl (t.get f.key ∙ rw (apart e f u.0) w)
      | inr v ↦ inr (rw (t.get f.key, apart e f u.0) v)
    ],
    IsReady-after e s r o entries t u.1 h.1,
  )

  -- What the whole loop leaves.
  pub record IsRecovered (entries : List ParsedCommitLogEntry) (s : S) (r : RecoveryResult)
      (o : S × RecoveryResult) : Type 0 where
    pub success : o.1.success ≡ true
    pub entries_written : All (IsWritten o.0) entries
    pub others : (j : Text) → Unnamed j entries → kv.get j o.0 ≡ kv.get j s
    pub count :
        o.1.applied_entry_count + o.1.skipped_committed_entry_count
        ≡ r.applied_entry_count + r.skipped_committed_entry_count + length entries

  IsRecovered-cons :
      (e : ParsedCommitLogEntry) (entries : List ParsedCommitLogEntry) (s : S) (r : RecoveryResult)
      (o p : S × RecoveryResult)
      → Unnamed e.key entries
      → IsStep e s r o
      → IsRecovered entries o.0 o.1 p
      → IsRecovered (e ∷ entries) s r p
  IsRecovered-cons e entries s r o p u t c = record {
    success = c.success;
    entries_written =
        (c.others e.key u ∙ t.get e.key ∙ rw (text_eq_refl e.key) refl, c.entries_written);
    others = λ j n. c.others j n.1 ∙ t.get j ∙ rw n.0 refl;
    count = omega (arith, t.count, c.count);
  }

  -- On a store that keeps the contract, if the entries of a committed log have distinct keys and
  -- each is in the store already or its key still has the version that the entry expects, the
  -- recovery succeeds, from a result that was a success so far, and counts each entry once;
  -- afterwards every entry is in the store with the version after the expected one, and no other
  -- key has changed.
  pub recover_entries_redo :
      (entries : List ParsedCommitLogEntry) (s : S) (r : RecoveryResult)
      → DistinctEntries entries
      → All (IsReady s) entries
      → r.success ≡ true
      → IsRecovered entries s r (recover_entries kv entries (s, r))
  unfolding recover_entries
  recover_entries_redo [] s r d h ok = record {
    success = ok;
    entries_written = tt;
    others = λ j n. refl;
    count = omega arith;
  }
  recover_entries_redo (e ∷ entries) s r d h ok =
      let t = recover_entry-IsStep e s r h.0 in
      let o = recover_entry kv e (s, r) in
      rw (t.success ∙ ok) (
        IsRecovered-cons e entries s r o _ d.0 t (
          recover_entries_redo entries o.0 o.1 d.1 (IsReady-after e s r o entries t d.0 h.1)
            (t.success ∙ ok)))

  -- The recovery of writes that are all in the store changes nothing and succeeds.
  pub record IsSkipped (entries : List ParsedCommitLogEntry) (s : S) (r : RecoveryResult)
      (o : S × RecoveryResult) : Type 0 where
    pub store : o.0 ≡ s
    pub success : o.1.success ≡ r.success
    pub applied : o.1.applied_entry_count ≡ r.applied_entry_count
    pub skipped :
        o.1.skipped_committed_entry_count ≡ r.skipped_committed_entry_count + length entries

  recover_entry_skip :
      (e : ParsedCommitLogEntry) (s : S) (r : RecoveryResult)
      → IsWritten s e
      → recover_entry kv e (s, r)
        ≡ (s, record r { skipped_committed_entry_count = r.skipped_committed_entry_count + 1 })
  unfolding recover_entry is_written
  recover_entry_skip e s r w =
      rw (w, ==_refl (next_version e.expected_version), text_eq_refl e.value) refl

  recover_entries-cons :
      (e : ParsedCommitLogEntry) (entries : List ParsedCommitLogEntry) (o p : S × RecoveryResult)
      → recover_entry kv e o ≡ p
      → p.1.success ≡ true
      → recover_entries kv (e ∷ entries) o ≡ recover_entries kv entries p
  unfolding recover_entries
  recover_entries-cons e entries o p step ok = rw (step, recover_entries) (rw ok refl)

  pub recover_entries_skip :
      (entries : List ParsedCommitLogEntry) (s : S) (r : RecoveryResult)
      → All (IsWritten s) entries
      → r.success ≡ true
      → IsSkipped entries s r (recover_entries kv entries (s, r))
  recover_entries_skip [] s r w ok =
      unfold recover_entries in
      record { store = refl; success = refl; applied = refl; skipped = omega arith }
  recover_entries_skip (e ∷ entries) s r w ok =
      let r' : RecoveryResult = record r {
        skipped_committed_entry_count = r.skipped_committed_entry_count + 1;
      } in
      let rest = recover_entries_skip entries s r' w.1 ok in
      let q = recover_entries-cons e entries (s, r) (s, r') (recover_entry_skip e s r w.0) ok in
      record {
        store = ap (λ o. o.0) q ∙ rest.store;
        success = ap (λ o. o.1.success) q ∙ rest.success;
        applied = ap (λ o. o.1.applied_entry_count) q ∙ rest.applied;
        skipped = ap (λ o. o.1.skipped_committed_entry_count) q ∙ rest.skipped ∙ omega arith;
      }
