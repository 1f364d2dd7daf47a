-- ===== src/Tests/Intents.antt =====
-- Rebased writes at concrete inputs.
use data_agent_system.Prelude.{◌≡◌, refl, true, ◌⊎◌, ◌↔◌, ◌++◌, codes, arith, All, some}
use data_agent_system.Prelude.Int.{pos, ◌+ℤ◌, ◌-ℤ◌, FitsInt64}
use data_agent_system.Intent.Types.{unconditional}
use data_agent_system.Intent.Number.{parse_int, print_ℤ, parse_int-print_ℤ}
use data_agent_system.Intent.Policy.{resolve_write, write_value}
use data_agent_system.Intent.Rebase.{
  IsDelta, resolve_write-append, resolve_write-delta, resolve_write-delta_comm, resolve_write-cas,
}
use data_agent_system.Cache.Entry.{ObjectCacheEntry}
use data_agent_system.Tests.Data.{entry_from, grown, append_intent, delta_intent, cas_intent}
use data_agent_system.Log.Escape.{escape, unescape, unescape-escape, escape-IsPlain, IsPlain}

resolve_write-append_example :
    resolve_write grown append_intent (codes "abx") ≡ write_value (codes "abx" ++ codes "cd")
resolve_write-append_example =
    resolve_write-append grown append_intent (codes "abx") (codes "cd") refl refl

abbrev moved_by_five : ObjectCacheEntry
moved_by_five = entry_from (print_ℤ (pos 10)) (print_ℤ (pos 15))

abbrev moved_by_two : ObjectCacheEntry
moved_by_two = entry_from (print_ℤ (pos 10)) (print_ℤ (pos 12))

five_IsDelta : IsDelta moved_by_five delta_intent (pos 10) (pos 15)
unfolding ◌-ℤ◌
five_IsDelta = record {
  type = refl;
  base_text = refl;
  branch_text = refl;
  base_fits = (omega arith, omega arith);
  branch_fits = (omega arith, omega arith);
  change_fits = (omega arith, omega arith);
}

two_IsDelta : IsDelta moved_by_two delta_intent (pos 10) (pos 12)
unfolding ◌-ℤ◌
two_IsDelta = record {
  type = refl;
  base_text = refl;
  branch_text = refl;
  base_fits = (omega arith, omega arith);
  branch_fits = (omega arith, omega arith);
  change_fits = (omega arith, omega arith);
}

fits_20 : FitsInt64 (pos 20)
fits_20 = (omega arith, omega arith)

fits_25 : FitsInt64 (pos 20 +ℤ (pos 15 -ℤ pos 10))
unfolding ◌+ℤ◌ ◌-ℤ◌
fits_25 = (omega arith, omega arith)

fits_22 : FitsInt64 (pos 20 +ℤ (pos 12 -ℤ pos 10))
unfolding ◌+ℤ◌ ◌-ℤ◌
fits_22 = (omega arith, omega arith)

fits_27 : FitsInt64 (pos 20 +ℤ (pos 15 -ℤ pos 10) +ℤ (pos 12 -ℤ pos 10))
unfolding ◌+ℤ◌ ◌-ℤ◌
fits_27 = (omega arith, omega arith)

resolve_write-delta_example :
    resolve_write moved_by_five delta_intent (print_ℤ (pos 20))
    ≡ write_value (print_ℤ (pos 20 +ℤ (pos 15 -ℤ pos 10)))
resolve_write-delta_example =
    resolve_write-delta moved_by_five delta_intent (pos 10) (pos 15) (pos 20) five_IsDelta fits_20
      fits_25

resolve_write-delta_comm_example :
    resolve_write moved_by_two delta_intent
      (resolve_write moved_by_five delta_intent (print_ℤ (pos 20))).value
    ≡ resolve_write moved_by_five delta_intent
        (resolve_write moved_by_two delta_intent (print_ℤ (pos 20))).value
resolve_write-delta_comm_example =
    resolve_write-delta_comm moved_by_five moved_by_two delta_intent delta_intent (pos 10) (pos 15)
      (pos 10) (pos 12) (pos 20) five_IsDelta two_IsDelta fits_20 fits_25 fits_22 fits_27

resolve_write-cas_example : ((resolve_write grown cas_intent (codes "abx")).success ≡ true) ↔ (
    (cas_intent.condition.type ≡ unconditional)
    ⊎ (codes "abx" ≡ cas_intent.condition.expected_value))
resolve_write-cas_example = resolve_write-cas grown cas_intent (codes "abx") refl

parse_int-print_ℤ_example : parse_int (print_ℤ (pos 20)) ≡ some (pos 20)
parse_int-print_ℤ_example = parse_int-print_ℤ (pos 20) fits_20

unescape-escape_example : unescape (escape (codes "a\tb\\n")) ≡ codes "a\tb\\n"
unescape-escape_example = unescape-escape (codes "a\tb\\n")

escape-IsPlain_example : All IsPlain (escape (codes "a\tb\n"))
escape-IsPlain_example = escape-IsPlain (codes "a\tb\n")
