-- ===== src/Runtime/Plan.antt =====
-- runtime/execution_plan.h. An exception is its message; `none` is a normal return.
use data_agent_system.Prelude.{
  ◌≡◌, ◌≢◌, ◌↔◌, refl, arith, Bool, true, false, Text, List, [], ◌∷◌, ◌++◌, Option, none, some,
  is_empty, codes, map, if◌then◌else◌, All, text_eq_iff,
}
use data_agent_system.Cache.WriteBuffer.Undo.{contains, Distinct}

pub data WinnerSelectionPolicy : Type 0 where
  highest_score : WinnerSelectionPolicy

pub record BranchPlan (D : Type 0) : Type 0 where
  pub branch_id : Text
  pub candidate_id : Text
  pub rationale : Text
  pub initial_priority : D

pub record ExecutionPlan (D : Type 0) : Type 0 where
  pub winner_selection_policy : WinnerSelectionPolicy
  pub branch_plans : List (BranchPlan D)

no_failure_iff :
    (a b c : Bool) (e f g : Text) (rest : Option Text)
    → ((if a then some e else if b then some f else if c then some g else rest) ≡ none)
      ↔ ((a ≡ false) × (b ≡ false) × (c ≡ false) × (rest ≡ none))
no_failure_iff true b c e f g rest = (λ h. cc h, λ h. cc h.0)
no_failure_iff false true c e f g rest = (λ h. cc h, λ h. cc h.1)
no_failure_iff false false true e f g rest = (λ h. cc h, λ h. cc h.2)
no_failure_iff false false false e f g rest = (λ h. (refl, refl, refl, h), λ h. h.3)

module _ {D : Type 0} where
  unfoldable pub add_branch_plan : Text → Text → Text → D → ExecutionPlan D → ExecutionPlan D
  add_branch_plan branch_id candidate_id rationale initial_priority plan = record plan {
    branch_plans =
        plan.branch_plans
        ++ record {
          branch_id = branch_id;
          candidate_id = candidate_id;
          rationale = rationale;
          initial_priority = initial_priority;
        }
          ∷ [];
  }

  unfoldable pub candidate_branch_ids : ExecutionPlan D → List Text
  candidate_branch_ids plan = map (λ p. p.branch_id) plan.branch_plans

  -- The loop of `Validate`, with the identifiers that it has seen.
  unfoldable pub validate_branch_plans : List Text → List (BranchPlan D) → Option Text
  validate_branch_plans seen [] = none
  validate_branch_plans seen (p ∷ plans) =
      let rest = validate_branch_plans (p.branch_id ∷ seen) plans in
      if is_empty p.branch_id
      then some (codes "execution plan contains an empty branch_id")
      else if is_empty p.candidate_id
      then some (codes "execution plan contains an empty candidate_id")
      else if contains p.branch_id seen
      then some (codes "execution plan contains duplicate branch_id: " ++ p.branch_id)
      else rest

  validate_listed : List (BranchPlan D) → Option Text
  unfolding validate_branch_plans
  validate_listed [] = some (codes "execution plan must contain at least one branch")
  validate_listed (p ∷ plans) = validate_branch_plans [] (p ∷ plans)

  unfoldable pub validate_plan : ExecutionPlan D → Option Text
  unfolding validate_listed
  validate_plan plan = validate_listed plan.branch_plans

  -- A branch plan with both identifiers.
  abbrev pub IsNamed : BranchPlan D → Type 0
  IsNamed p = (is_empty p.branch_id ≡ false) × (is_empty p.candidate_id ≡ false)

  abbrev Unseen : List Text → BranchPlan D → Type 0
  Unseen seen p = contains p.branch_id seen ≡ false

  abbrev AreFine : List Text → List (BranchPlan D) → Type 0
  AreFine seen plans =
      All IsNamed plans × All (Unseen seen) plans × Distinct (map (λ p. p.branch_id) plans)

  Unseen-cons :
      (id : Text) (seen : List Text) (plans : List (BranchPlan D))
      → All (Unseen (id ∷ seen)) plans
        ↔ (All (Unseen seen) plans × (contains id (map (λ p. p.branch_id) plans) ≡ false))
  unfolding contains
  Unseen-cons id seen [] = (λ h. (tt, refl), λ h. tt)
  Unseen-cons id seen (p ∷ plans) =
      let rest = Unseen-cons id seen plans in
      (
        λ h. (
          (ground arith, (rest.0 h.1).0),
          ground (arith, (rest.0 h.1).1, text_eq_iff p.branch_id id, text_eq_iff id p.branch_id),
        ),
        λ h. (
          ground (arith, text_eq_iff p.branch_id id, text_eq_iff id p.branch_id),
          rest.1 (h.0.1, ground arith),
        ),
      )

  validate_branch_plans_iff :
      (seen : List Text) (plans : List (BranchPlan D))
      → (validate_branch_plans seen plans ≡ none) ↔ AreFine seen plans
  unfolding validate_branch_plans
  validate_branch_plans_iff seen [] = (λ h. (tt, tt, tt), λ h. refl)
  validate_branch_plans_iff seen (p ∷ plans) =
      let rest = validate_branch_plans_iff (p.branch_id ∷ seen) plans in
      let more = Unseen-cons p.branch_id seen plans in
      let tests =
        no_failure_iff (is_empty p.branch_id) (is_empty p.candidate_id) (contains p.branch_id seen)
          _ _ _ (validate_branch_plans (p.branch_id ∷ seen) plans) in
      (
        λ h.
            let (e, f, g, r) = tests.0 h in
            let (named, unseen, distinct) = rest.0 r in
            let (u, n) = more.0 unseen in (((e, f), named), (g, u), (n, distinct)),
        λ (named, unseen, distinct). tests.1 (
          named.0.0,
          named.0.1,
          unseen.0,
          rest.1 (named.1, more.1 (unseen.1, distinct.0), distinct.1),
        ),
      )

  All-Unseen_none : (plans : List (BranchPlan D)) → All (Unseen []) plans
  unfolding contains
  All-Unseen_none [] = tt
  All-Unseen_none (p ∷ plans) = (refl, All-Unseen_none plans)

  validate_listed_iff :
      (plans : List (BranchPlan D))
      → (validate_listed plans ≡ none)
        ↔ ((plans ≢ []) × All IsNamed plans × Distinct (map (λ p. p.branch_id) plans))
  unfolding validate_listed
  validate_listed_iff [] = (λ h. cc h, λ h. absurd (h.0 refl))
  validate_listed_iff (p ∷ plans) =
      let test = validate_branch_plans_iff [] (p ∷ plans) in
      (
        λ h. let (named, unseen, distinct) = test.0 h in ((λ e. cc e), named, distinct),
        λ (some_plan, named, distinct). test.1 (named, All-Unseen_none (p ∷ plans), distinct),
      )

  -- A plan is valid exactly when it has a branch plan, each branch plan has both identifiers, and no
  -- branch identifier comes twice.
  pub validate_plan_iff :
      (plan : ExecutionPlan D)
      → (validate_plan plan ≡ none) ↔ (
          (plan.branch_plans ≢ [])
          × All IsNamed plan.branch_plans
          × Distinct (candidate_branch_ids plan))
  unfolding validate_plan candidate_branch_ids
  validate_plan_iff plan = validate_listed_iff plan.branch_plans
