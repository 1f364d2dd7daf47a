-- ===== src/Intent/Rebase.antt =====
-- What the policy dispatcher promises of rebased writes.
use data_agent_system.Prelude.{
  Text, true, false, [], ◌∷◌, ◌++◌, ◌≡◌, refl, ap, Bool-cases, arith, take, drop, length,
  text_eq_refl, text_eq_iff, length-append, subst, ◌↔◌, ◌⊎◌, inl, inr,
}
use data_agent_system.Prelude.Int.{ℤ, ◌+ℤ◌, ◌-ℤ◌, wrap_int64_id, FitsInt64, int_laws}
use data_agent_system.Intent.Types.{
  ConditionType, WriteIntent, append, delta, cas, value_equals, unconditional,
}
use data_agent_system.Intent.Number.{print_ℤ, parse_int-print_ℤ}
use data_agent_system.Cache.Entry.{ObjectCacheEntry}
use data_agent_system.Intent.Policy.{resolve_write, write_value, is_extension, condition_fails}

take_prefix : (base suffix : Text) → take (length base) (base ++ suffix) ≡ base
take_prefix [] suffix = refl
take_prefix (c ∷ base) suffix = ap (◌∷◌ c) (take_prefix base suffix)

drop_prefix : (base suffix : Text) → drop (length base) (base ++ suffix) ≡ suffix
drop_prefix [] suffix = refl
drop_prefix (c ∷ base) suffix = drop_prefix base suffix

is_extension-append : (base suffix : Text) → is_extension base (base ++ suffix) ≡ true
unfolding is_extension
is_extension-append base suffix =
    rw (take_prefix base suffix, text_eq_refl base) (ground (arith, length-append {0} base suffix))

-- An append intent whose branch has grown its base by `suffix` appends the same suffix to the stored
-- value, whatever that is by now.
pub resolve_write-append :
    (entry : ObjectCacheEntry) (intent : WriteIntent) (stored suffix : Text)
    → intent.intent_type ≡ append
    → entry.current_value ≡ entry.base_value ++ suffix
    → resolve_write entry intent stored ≡ write_value (stored ++ suffix)
unfolding resolve_write
resolve_write-append entry intent stored suffix t e =
    rw t (rw (e, is_extension-append entry.base_value suffix, drop_prefix entry.base_value suffix))

-- A delta branch read the integer `base` and holds the integer `branch_value`.
pub record IsDelta (entry : ObjectCacheEntry) (intent : WriteIntent) (base branch_value : ℤ)
    : Type 0 where
  pub type : intent.intent_type ≡ delta
  pub base_text : entry.base_value ≡ print_ℤ base
  pub branch_text : entry.current_value ≡ print_ℤ branch_value
  pub base_fits : FitsInt64 base
  pub branch_fits : FitsInt64 branch_value
  pub change_fits : FitsInt64 (branch_value -ℤ base)

-- A delta intent adds the change of its branch to the stored integer, where the stored integer, the
-- branch's two integers, the change and the sum are all `long long`s.
pub resolve_write-delta :
    (entry : ObjectCacheEntry) (intent : WriteIntent) (base branch_value stored : ℤ)
    → IsDelta entry intent base branch_value
    → FitsInt64 stored
    → FitsInt64 (stored +ℤ (branch_value -ℤ base))
    → resolve_write entry intent (print_ℤ stored)
      ≡ write_value (print_ℤ (stored +ℤ (branch_value -ℤ base)))
unfolding resolve_write
resolve_write-delta entry intent base branch_value stored d f g = rw d.type (
    rw (
      d.base_text,
      d.branch_text,
      parse_int-print_ℤ stored f,
      parse_int-print_ℤ base d.base_fits,
      parse_int-print_ℤ branch_value d.branch_fits,
      wrap_int64_id (branch_value -ℤ base) d.change_fits,
      wrap_int64_id (stored +ℤ (branch_value -ℤ base)) g,
    ))

swap_changes : (s c d : ℤ) → s +ℤ c +ℤ d ≡ s +ℤ d +ℤ c
swap_changes s c d = omega int_laws

-- Two delta branches that are committed one after the other leave the same text in both orders, as
-- long as the stored integer, each branch's integers and change, and every sum fit a `long long`.
pub resolve_write-delta_comm :
    (e₁ e₂ : ObjectCacheEntry) (i₁ i₂ : WriteIntent) (b₁ v₁ b₂ v₂ stored : ℤ)
    → IsDelta e₁ i₁ b₁ v₁
    → IsDelta e₂ i₂ b₂ v₂
    → FitsInt64 stored
    → FitsInt64 (stored +ℤ (v₁ -ℤ b₁))
    → FitsInt64 (stored +ℤ (v₂ -ℤ b₂))
    → FitsInt64 (stored +ℤ (v₁ -ℤ b₁) +ℤ (v₂ -ℤ b₂))
    → resolve_write e₂ i₂ (resolve_write e₁ i₁ (print_ℤ stored)).value
      ≡ resolve_write e₁ i₁ (resolve_write e₂ i₂ (print_ℤ stored)).value
resolve_write-delta_comm e₁ e₂ i₁ i₂ b₁ v₁ b₂ v₂ stored d₁ d₂ f f₁ f₂ f₁₂ =
    let c₁ = v₁ -ℤ b₁ in
    let c₂ = v₂ -ℤ b₂ in
    let swap : stored +ℤ c₁ +ℤ c₂ ≡ stored +ℤ c₂ +ℤ c₁ = swap_changes stored c₁ c₂ in
    let f₂₁ : FitsInt64 (stored +ℤ c₂ +ℤ c₁) = subst FitsInt64 swap f₁₂ in
    rw (
      resolve_write-delta e₁ i₁ b₁ v₁ stored d₁ f f₁,
      resolve_write-delta e₂ i₂ b₂ v₂ stored d₂ f f₂,
      resolve_write-delta e₂ i₂ b₂ v₂ (stored +ℤ c₁) d₂ f₁ f₁₂,
      resolve_write-delta e₁ i₁ b₁ v₁ (stored +ℤ c₂) d₁ f₂ f₂₁,
      swap,
    )

unconditional_or_equal :
    (type : ConditionType) (expected stored : Text)
    → (condition_fails type expected stored ≡ false)
      ↔ ((type ≡ unconditional) ⊎ (stored ≡ expected))
unfolding condition_fails
unconditional_or_equal unconditional expected stored = (λ h. inl refl, λ h. refl)
unconditional_or_equal value_equals expected stored = (
  λ h. inr (ground (arith, text_eq_iff stored expected)),
  λ h. elim h [ inl e ↦ cc e | inr e ↦ rw (e, text_eq_refl expected) refl ],
)

-- A compare-and-set write goes through exactly when it has no condition or the stored value is the
-- expected one.
pub resolve_write-cas :
    (entry : ObjectCacheEntry) (intent : WriteIntent) (stored : Text)
    → intent.intent_type ≡ cas
    → ((resolve_write entry intent stored).success ≡ true)
      ↔ ((intent.condition.type ≡ unconditional) ⊎ (stored ≡ intent.condition.expected_value))
unfolding resolve_write
resolve_write-cas entry intent stored t =
    let test =
      unconditional_or_equal intent.condition.type intent.condition.expected_value stored in
    rw t
      (elim (Bool-cases
        (condition_fails intent.condition.type intent.condition.expected_value stored)) [
          | inl e ↦ rw e (λ h. cc h, λ h. cc (e, test.1 h))
          | inr e ↦ rw e (λ h. test.0 e, λ h. refl)
        ])
