-- ===== src/Txn/Freshness.antt =====
-- What the validation of a winner establishes.
use data_agent_system.Prelude.{
  ◌≡◌, refl, true, false, inl, inr, ◌⊎◌, ◌↔◌, arith, List, [], ◌∷◌, All, Bool-cases, ◌==◌, ==_iff,
}
use data_agent_system.Intent.Types.{WriteIntent}
use data_agent_system.Cache.ReadSet.{ReadRecord}
use data_agent_system.Storage.Interface.{VersionedKvStore}
use data_agent_system.Branch.Context.{BranchContext}
use data_agent_system.Txn.Validation.{validate_reads, validate_winner, is_exempt}

module _ {S : Type 0} (kv : VersionedKvStore S) (store : S) where
  -- The read is as it was, or the commit rebases the object's last intent.
  abbrev pub IsFresh : List WriteIntent → ReadRecord → Type 0
  IsFresh intents read =
      (is_exempt intents read.object_id ≡ true)
      ⊎ (kv.get_version read.object_id store ≡ read.observed_version)

  validate_reads_skip :
      (intents : List WriteIntent) (read : ReadRecord) (reads : List ReadRecord)
      → IsFresh intents read
      → validate_reads kv intents store (read ∷ reads) ≡ validate_reads kv intents store reads
  unfolding validate_reads
  validate_reads_skip intents read reads (inl e) = rw e refl
  validate_reads_skip intents read reads (inr v) = rw ((==_iff _ _).1 v) (ground arith)

  validate_reads_stop :
      (intents : List WriteIntent) (read : ReadRecord) (reads : List ReadRecord)
      → (¬ IsFresh intents read)
      → (validate_reads kv intents store (read ∷ reads)).success ≡ false
  unfolding validate_reads
  validate_reads_stop intents read reads n = elim (Bool-cases (is_exempt intents read.object_id)) [
    | inl e ↦ absurd (n (inl e))
    | inr e ↦ elim (Bool-cases (kv.get_version read.object_id store == read.observed_version)) [
      | inl v ↦ absurd (n (inr ((==_iff _ _).0 v)))
      | inr v ↦ rw (e, v) refl
    ]
  ]

  decide_IsFresh :
      (intents : List WriteIntent) (read : ReadRecord)
      → IsFresh intents read ⊎ (¬ IsFresh intents read)
  decide_IsFresh intents read = elim (Bool-cases (is_exempt intents read.object_id)) [
    | inl e ↦ inl (inl e)
    | inr e ↦ elim (Bool-cases (kv.get_version read.object_id store == read.observed_version)) [
      | inl v ↦ inl (inr ((==_iff _ _).0 v))
      | inr v ↦ inr (λ h. elim h [ inl e' ↦ cc (e, e') | inr v' ↦ cc (v, (==_iff _ _).1 v') ])
    ]
  ]

  validate_reads_iff :
      (intents : List WriteIntent) (reads : List ReadRecord)
      → ((validate_reads kv intents store reads).success ≡ true) ↔ All (IsFresh intents) reads
  validate_reads_iff intents [] = unfold validate_reads in (λ h. tt, λ h. refl)
  validate_reads_iff intents (read ∷ reads) =
      let rest = validate_reads_iff intents reads in
      elim (decide_IsFresh intents read) [
        | inl f ↦
            rw (validate_reads_skip intents read reads f) (λ h. (f, rest.0 h), λ h. rest.1 h.1)
        | inr n ↦ (λ h. cc (h, validate_reads_stop intents read reads n), λ h. absurd (n h.0))
      ]

  -- The validation succeeds exactly when each object that the winner has read either still has the
  -- version that the winner saw, or is one whose last intent the commit rebases.
  pub validate_winner_iff :
      {D : Type 0} (winner : BranchContext D)
      → ((validate_winner kv winner store).success ≡ true)
        ↔ All (IsFresh winner.intent_log.intents) winner.read_set.entries
  unfolding validate_winner
  validate_winner_iff winner = validate_reads_iff winner.intent_log.intents winner.read_set.entries
