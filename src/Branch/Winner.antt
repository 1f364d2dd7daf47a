-- ===== src/Branch/Winner.antt =====
-- The choice of the winner and the marks of the branches (`SelectWinner`, `MarkWinnerAndLosers`).
use data_agent_system.Prelude.{
  true, false, ◌≡◌, refl, List, [], ◌∷◌, some, All, Among, inl, inr, Bool-cases,
}
use data_agent_system.Branch.Context.{BranchContext, Double}
use data_agent_system.Branch.Manager.{max_element, select_winner}

-- The laws of `<` on `double`, NaN included.
pub record IsScoreOrder {D : Type 0} (fp : Double D) : Type 0 where
  pub irreflexive : (a : D) → fp.less a a ≡ false
  pub transitive : (a b c : D) → fp.less a b ≡ true → fp.less b c ≡ true → fp.less a c ≡ true

module _ {D : Type 0} (fp : Double D) (laws : IsScoreOrder fp) where
  -- `b` does not score higher than `best`.
  abbrev pub NotAbove : BranchContext D → BranchContext D → Type 0
  NotAbove best b = fp.less best.candidate_result.score b.candidate_result.score ≡ false

  NotAbove-step :
      (best b c : BranchContext D)
      → fp.less best.candidate_result.score b.candidate_result.score ≡ true
      → NotAbove best c
      → NotAbove b c
  NotAbove-step best b c up h =
      elim (Bool-cases (fp.less b.candidate_result.score c.candidate_result.score)) [
        | inl e ↦ cc (
          laws.transitive best.candidate_result.score b.candidate_result.score
              c.candidate_result.score up e,
          h,
        )
        | inr e ↦ e
      ]

  All-NotAbove-step :
      (best b : BranchContext D) (seen : List (BranchContext D))
      → fp.less best.candidate_result.score b.candidate_result.score ≡ true
      → All (NotAbove best) seen
      → All (NotAbove b) seen
  All-NotAbove-step best b [] up h = tt
  All-NotAbove-step best b (c ∷ seen) up h =
      (NotAbove-step best b c up h.0, All-NotAbove-step best b seen up h.1)

  pub record IsBest (best : BranchContext D) (start : BranchContext D)
      (branches : List (BranchContext D)) : Type 0 where
    pub among : Among best (start ∷ branches)
    pub above_start : (c : BranchContext D) → NotAbove start c → NotAbove best c
    pub above : All (NotAbove best) branches

  max_element-IsBest :
      (best : BranchContext D) (branches : List (BranchContext D))
      → IsBest (max_element fp best branches) best branches
  unfolding max_element
  max_element-IsBest best [] = record { among = inl refl; above_start = λ c h. h; above = tt }
  max_element-IsBest best (b ∷ branches) =
      elim (Bool-cases (fp.less best.candidate_result.score b.candidate_result.score)) [
        | inl e ↦
            let r = max_element-IsBest b branches in
            rw e (record {
              among = inr r.among;
              above_start = λ c h. r.above_start c (NotAbove-step best b c e h);
              above = (r.above_start b (laws.irreflexive b.candidate_result.score), r.above);
            })
        | inr e ↦
            let r = max_element-IsBest best branches in
            rw e (record {
              among = elim r.among [ inl p ↦ inl p | inr p ↦ inr (inr p) ];
              above_start = r.above_start;
              above = (r.above_start b e, r.above);
            })
      ]

  -- Where the order of the scores is irreflexive and transitive, a non-empty list has a winner: the
  -- identifier of one of its branches, over which no branch of the list scores.
  pub select_winner_best :
      (b : BranchContext D) (branches : List (BranchContext D))
      → (w : BranchContext D) × (select_winner fp (b ∷ branches) ≡ some w.branch_id)
        × Among w (b ∷ branches)
        × All (NotAbove w) (b ∷ branches)
  unfolding select_winner
  select_winner_best b branches =
      let r = max_element-IsBest b branches in
      (
        max_element fp b branches,
        refl,
        r.among,
        (r.above_start b (laws.irreflexive b.candidate_result.score), r.above),
      )
