-- ===== src/Intent/Policy.antt =====
-- intent/policy_dispatcher.h: how a buffered write is resolved against the stored value.
use data_agent_system.Prelude.{
  Text, Bool, true, false, [], ◌++◌, Option, some, ◌&&◌, not, length, take, drop, leb, text_eq,
  codes, if◌then◌else◌,
}
use data_agent_system.Prelude.Int.{ℤ, ◌+ℤ◌, ◌-ℤ◌, wrap_int64}
use data_agent_system.Intent.Types.{
  IntentType, WriteIntent, ConditionType, read, overwrite, append, delta, cas, unconditional,
  value_equals,
}
use data_agent_system.Intent.Number.{parse_int, print_ℤ}
use data_agent_system.Cache.Entry.{ObjectCacheEntry}

pub data ConcurrencyClass : Type 0 where
  read_only strict commutative_rebase conditional_rebase : ConcurrencyClass

unfoldable pub classify : IntentType → ConcurrencyClass
classify read = read_only
classify overwrite = strict
classify append = commutative_rebase
classify delta = commutative_rebase
classify cas = conditional_rebase

is_rebase : ConcurrencyClass → Bool
is_rebase strict = false
is_rebase read_only = false
is_rebase _ = true

unfoldable pub uses_semantic_rebase : IntentType → Bool
unfolding classify is_rebase
uses_semantic_rebase intent_type = is_rebase (classify intent_type)

class_name : ConcurrencyClass → Text
class_name read_only = codes "read_only"
class_name strict = codes "strict"
class_name commutative_rebase = codes "commutative_rebase"
class_name conditional_rebase = codes "conditional_rebase"

unfoldable pub concurrency_class_name : IntentType → Text
unfolding classify class_name
concurrency_class_name intent_type = class_name (classify intent_type)

pub record ResolveResult : Type 0 where
  pub success : Bool
  pub should_write : Bool
  pub value : Text
  pub reason : Text

abbrev pub no_write : ResolveResult
no_write = record { success = true; should_write = false; value = []; reason = [] }

abbrev pub write_value : Text → ResolveResult
write_value value = record { success = true; should_write = true; value = value; reason = [] }

abbrev pub delta_reason : Text
delta_reason = codes "delta rebase requires integer base/current values"

abbrev pub cas_reason : Text
cas_reason = codes "cas condition no longer holds"

-- The branch grew its base by a suffix.
unfoldable pub is_extension : Text → Text → Bool
is_extension base current =
    leb (length base) (length current) && text_eq (take (length base) current) base

resolve_append : ObjectCacheEntry → WriteIntent → Text → ResolveResult
unfolding is_extension
resolve_append entry intent stored =
    if is_extension entry.base_value entry.current_value
    then write_value (stored ++ drop (length entry.base_value) entry.current_value)
    else write_value (stored ++ intent.payload)

-- Without the three integers the payload decides; `should_write` was set before the failure.
resolve_payload : Option ℤ → Option ℤ → ResolveResult
resolve_payload (some current) (some change) =
    write_value (print_ℤ (wrap_int64 (current +ℤ change)))
resolve_payload _ _ = record {
  success = false;
  should_write = true;
  value = [];
  reason = delta_reason;
}

-- The two sums of `long long` overflow to undefined behaviour in C++; the model wraps.
resolve_delta : Option ℤ → Option ℤ → Option ℤ → Option ℤ → ResolveResult
unfolding resolve_payload
resolve_delta (some current) (some base) (some branch_value) change =
    write_value (print_ℤ (wrap_int64 (current +ℤ wrap_int64 (branch_value -ℤ base))))
resolve_delta current _ _ change = resolve_payload current change

unfoldable pub condition_fails : ConditionType → Text → Text → Bool
condition_fails unconditional expected stored = false
condition_fails value_equals expected stored = not (text_eq stored expected)

-- The final `unknown intent type` is for a value outside the enumeration.
resolve_as : IntentType → ObjectCacheEntry → WriteIntent → Text → ResolveResult
unfolding resolve_append resolve_delta condition_fails
resolve_as read entry intent stored = no_write
resolve_as overwrite entry intent stored = write_value entry.current_value
resolve_as append entry intent stored = resolve_append entry intent stored
resolve_as delta entry intent stored =
    resolve_delta (parse_int stored) (parse_int entry.base_value) (parse_int entry.current_value)
      (parse_int intent.payload)
resolve_as cas entry intent stored =
    if condition_fails intent.condition.type intent.condition.expected_value stored
    then record { success = false; should_write = false; value = []; reason = cas_reason }
    else write_value entry.current_value

unfoldable pub resolve_write : ObjectCacheEntry → WriteIntent → Text → ResolveResult
unfolding resolve_as
resolve_write entry intent stored = resolve_as intent.intent_type entry intent stored
