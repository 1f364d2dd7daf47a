-- ===== src/Fallback/RollForward.antt =====
-- Rolling forward a fallback commit that was interrupted between two writes.
use data_agent_system.Prelude.{
  ℕ, ◌+◌, Text, true, false, ◌≡◌, refl, ap, ◌∙◌, List, [], ◌∷◌, ◌++◌, All, arith, text_eq_refl,
  length, drop, ltb, length-append, All-append,
}
use data_agent_system.Storage.Interface.{VersionedValue, VersionedKvStore}
use data_agent_system.Storage.Contract.{IsVersioned, Updated, written}
use data_agent_system.Fallback.Artifact.{
  FallbackCommitArtifact, FallbackCommitEntry, committed, applying,
}
use data_agent_system.Fallback.Recovery.{FallbackRecoveryResult, World, Outcome}
use data_agent_system.Fallback.Forward.{
  finish_forward, forward_loop, start_forward, phase_of_prefix, resume_forward_fallback_commit,
}
use data_agent_system.Fallback.Durable.{IsReliable, Holds, persist_succeeds}
use data_agent_system.Fallback.Commits.{
  Spares, DistinctTargets, Spares-append, DistinctTargets-append, drop_prefix, apart, IsWritten,
  IsPending,
}
use data_agent_system.Fallback.Detect.{detect_committed_prefix-append}

module _ {S : Type 0} (kv : VersionedKvStore S) where
  -- What the loop leaves.
  pub record IsForwarded (path : Text) (entries : List FallbackCommitEntry) (s : S)
      (artifact : FallbackCommitArtifact) (o : Outcome S) : Type 0 where
    pub done : o.done ≡ true
    pub phase : o.artifact.phase ≡ committed
    pub artifact_entries : o.artifact.entries ≡ artifact.entries
    pub entries_written : All (IsWritten kv o.world.store) entries
    pub others : (j : Text) → Spares j entries → kv.get j o.world.store ≡ kv.get j s
    pub held : Holds path o.artifact o.world.disk

  finish_forward-IsForwarded :
      (path : Text) (artifact : FallbackCommitArtifact) (world : World S)
      (r : FallbackRecoveryResult)
      → IsReliable world.disk
      → IsForwarded path [] world.store artifact (finish_forward path artifact world r)
  unfolding finish_forward
  finish_forward-IsForwarded path artifact world r h =
      let (w, e, p) =
        persist_succeeds "failed to persist fallback committed state: " path
          (record artifact { phase = committed }) world r
          (λ w. record {
            done = true;
            artifact = record artifact { phase = committed };
            world = w;
            result = r;
          })
          h in
      rw e (record {
        done = refl;
        phase = refl;
        artifact_entries = refl;
        entries_written = tt;
        others = λ j n. ap (kv.get j) p.store;
        held = p.held;
      })

module _ {S : Type 0} (kv : VersionedKvStore S) (laws : IsVersioned kv) where
  IsPending-Updated :
      (e : FallbackCommitEntry) (v : VersionedValue) (s s' : S) (entries : List FallbackCommitEntry)
      → Updated kv.get e.key v s s'
      → Spares e.key entries
      → All (IsPending kv s) entries
      → All (IsPending kv s') entries
  IsPending-Updated e v s s' [] u n h = tt
  IsPending-Updated e v s s' (f ∷ entries) u n h =
      let same : kv.get f.key s' ≡ kv.get f.key s = u.at_key f.key ∙ rw (apart e f n.0) refl in
      (
        record {
          value = ap (λ x. x.value) same ∙ h.0.value;
          version = ap (λ x. x.version) same ∙ h.0.version;
          exists = ap (λ x. x.exists) same ∙ h.0.exists;
          same_version = h.0.same_version;
        },
        IsPending-Updated e v s s' entries u n.1 h.1,
      )

  IsForwarded-cons :
      (path : Text) (e : FallbackCommitEntry) (entries : List FallbackCommitEntry) (s s' : S)
      (artifact artifact' : FallbackCommitArtifact) (o : Outcome S)
      → Updated kv.get e.key (written e.target_value e.expected_version) s s'
      → Spares e.key entries
      → artifact'.entries ≡ artifact.entries
      → IsForwarded kv path entries s' artifact' o
      → IsForwarded kv path (e ∷ entries) s artifact o
  IsForwarded-cons path e entries s s' artifact artifact' o u n a f = record {
    done = f.done;
    phase = f.phase;
    artifact_entries = f.artifact_entries ∙ a;
    entries_written =
        (f.others e.key n ∙ u.at_key e.key ∙ rw (text_eq_refl e.key) refl, f.entries_written);
    others = λ j m. f.others j m.1 ∙ u.at_key j ∙ rw m.0 refl;
    held = f.held;
  }

  forward_loop-IsForwarded :
      (path : Text) (i : ℕ) (entries : List FallbackCommitEntry) (artifact : FallbackCommitArtifact)
      (world : World S) (r : FallbackRecoveryResult)
      → IsReliable world.disk
      → DistinctTargets entries
      → All (IsPending kv world.store) entries
      → IsForwarded kv path entries world.store artifact
          (forward_loop kv path i entries artifact world r)
  unfolding forward_loop
  forward_loop-IsForwarded path i [] artifact world r h d p =
      finish_forward-IsForwarded kv path artifact world r h
  forward_loop-IsForwarded path i (e ∷ entries) artifact world r h d p =
      let (ok, u) = laws.put_hit e.key e.target_value e.expected_version world.store p.0.version in
      let s' = (kv.put_if_version e.key e.expected_version e.target_value world.store).0 in
      let artifact' : FallbackCommitArtifact = record artifact {
        applied_count = i + 1;
        phase = applying;
      } in
      let r' : FallbackRecoveryResult = record r {
        rolled_forward_write_count = r.rolled_forward_write_count + 1;
      } in
      let (w, eq, q) =
        persist_succeeds "failed to persist fallback forward progress: " path artifact'
          (record world { store = s' }) r (λ w. forward_loop kv path (i + 1) entries artifact' w r')
          h in
      let pending : All (IsPending kv w.store) entries =
        rw q.store (IsPending-Updated e _ world.store s' entries u d.0 p.1) in
      let rest =
        forward_loop-IsForwarded path (i + 1) entries artifact' w r' q.reliable d.1 pending in
      rw ok (
        rw eq (
          IsForwarded-cons path e entries world.store w.store artifact artifact' _ (rw q.store u)
            d.0 refl rest))

  IsWritten-kept :
      (applied pending : List FallbackCommitEntry) (s s' : S)
      → ((j : Text) → Spares j pending → kv.get j s' ≡ kv.get j s)
      → All (λ e. Spares e.key pending) applied
      → All (IsWritten kv s) applied
      → All (IsWritten kv s') applied
  IsWritten-kept [] pending s s' same n w = tt
  IsWritten-kept (e ∷ applied) pending s s' same n w =
      (same e.key n.0 ∙ w.0, IsWritten-kept applied pending s s' same n.1 w.1)

  IsForwarded-append :
      (path : Text) (applied pending : List FallbackCommitEntry) (s s' : S)
      (artifact artifact' : FallbackCommitArtifact) (o : Outcome S)
      → s' ≡ s
      → artifact'.entries ≡ artifact.entries
      → All (λ e. Spares e.key pending) applied
      → All (IsWritten kv s) applied
      → IsForwarded kv path pending s' artifact' o
      → IsForwarded kv path (applied ++ pending) s artifact o
  IsForwarded-append path applied pending s s' artifact artifact' o q a n w f =
      let same = λ (j : Text) (m : Spares j pending). f.others j m ∙ ap (kv.get j) q in
      record {
        done = f.done;
        phase = f.phase;
        artifact_entries = f.artifact_entries ∙ a;
        entries_written =
            All-append (IsWritten kv o.world.store) applied pending
              (IsWritten-kept applied pending s o.world.store same n w) f.entries_written;
        others = λ j m. same j (Spares-append j applied pending m);
        held = f.held;
      }

  -- A commit that was interrupted between two writes is completed, on a store that keeps the
  -- contract and a disk that does not fail any more. If the entries of the artifact have distinct
  -- keys, the first of them are in the store, and the keys of the others have the values, the
  -- existence and the expected versions that the artifact notes, the recovery succeeds: every entry
  -- is written, no other key has changed, and the file holds the artifact with the same entries,
  -- marked committed.
  pub resume_forward_completes :
      (path : Text) (artifact : FallbackCommitArtifact) (world : World S)
      (r : FallbackRecoveryResult) (applied pending : List FallbackCommitEntry)
      → artifact.entries ≡ applied ++ pending
      → DistinctTargets (applied ++ pending)
      → All (IsWritten kv world.store) applied
      → All (IsPending kv world.store) pending
      → IsReliable world.disk
      → IsForwarded kv path
          (applied ++ pending)
          world.store
          artifact
          (resume_forward_fallback_commit kv path artifact world r)
  unfolding resume_forward_fallback_commit start_forward
  resume_forward_completes path artifact world r applied pending e d w p h =
      let n = length applied in
      let (distinct, apart_from) = DistinctTargets-append applied pending d in
      let artifact' : FallbackCommitArtifact = record artifact {
        applied_count = n;
        phase = phase_of_prefix n (length artifact.entries);
      } in
      let (world', eq, q) =
        persist_succeeds "failed to persist fallback forward state: " path artifact' world r
          (λ w. forward_loop kv path n pending artifact' w r) h in
      let enough : ltb (length artifact.entries) n ≡ false =
        rw (e, length-append applied pending) (ground arith) in
      let rest : drop n artifact.entries ≡ pending = rw e (drop_prefix applied pending) in
      let pending' : All (IsPending kv world'.store) pending = rw q.store p in
      let f =
        forward_loop-IsForwarded path n pending artifact' world' r q.reliable distinct pending' in
      rw
        (
          detect_committed_prefix-append kv laws world.store artifact r applied pending e w p,
          resume_forward_fallback_commit,
        )
        (rw enough (
          rw rest (
            rw eq (
              IsForwarded-append path applied pending world.store world'.store artifact artifact' _
                q.store refl apart_from w f))))
