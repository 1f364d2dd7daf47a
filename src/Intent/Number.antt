-- ===== src/Intent/Number.antt =====
-- The decimal texts of the code: `std::to_string` of a `long long` and of an unsigned number, and
-- `ParseInt` of intent/policy_dispatcher.h and branch/branch_manager.h (one text in two classes).
use data_agent_system.Prelude.{
  ℕ, zero, suc, ◌+◌, ◌-◌, ◌*◌, ◌/◌, ◌%◌, ◌<◌, ◌≡◌, refl, ◌||◌, Bool-cases, inl, inr, ◌∷◌, [],
  Option, none, some, arith, Text, ltb, ◌==◌, if◌then◌else◌, ap, ◌∙◌, ◌≤◌,
}
use data_agent_system.Prelude.Int.{ℤ, pos, negsuc, fits_int64, FitsInt64, FitsInt64-fits_int64}

-- The digits of `n` in front of `rest`; `fuel` bounds the number of digits.
print_digits : ℕ → ℕ → Text → Text
print_digits zero n rest = rest
print_digits (suc fuel) n rest =
    let more = print_digits fuel (n / 10) ((b'0' + n % 10) ∷ rest) in
    if ltb n 10 then (b'0' + n) ∷ rest else more

-- `std::to_string` of an unsigned number. A number has at most as many digits as its value, and
-- one for 0.
unfoldable pub print_ℕ : ℕ → Text
unfolding print_digits
print_ℕ n = print_digits (suc n) n []

-- `std::to_string(long long)`
unfoldable pub print_ℤ : ℤ → Text
unfolding print_ℕ
print_ℤ (pos n) = print_ℕ n
print_ℤ (negsuc n) = b'-' ∷ print_ℕ (suc n)

-- The value of a text of digits behind a number that is read already; `none` at another byte.
unfoldable pub digits_value : ℕ → Text → Option ℕ
digits_value n [] = some n
digits_value n (c ∷ s) =
    let rest = digits_value (n * 10 + (c - b'0')) s in
    if ltb c b'0' || ltb b'9' c then none else rest

-- `std::from_chars` wants a digit.
unfoldable pub parse_ℕ : Text → Option ℕ
unfolding digits_value
parse_ℕ [] = none
parse_ℕ (c ∷ s) = digits_value 0 (c ∷ s)

unfoldable pub negate : ℕ → ℤ
negate zero = pos 0
negate (suc n) = negsuc n

in_range : ℤ → Option ℤ
in_range a = if fits_int64 a then some a else none

-- `ParseInt`: the whole text is a decimal number, with a minus sign or none, in the range.
unfoldable pub parse_int : Text → Option ℤ
unfolding parse_ℕ negate in_range fits_int64
parse_int [] = none
parse_int (c ∷ s) =
    if c == b'-'
    then elim (parse_ℕ s) [ none ↦ none | some n ↦ in_range (negate n) ]
    else elim (parse_ℕ (c ∷ s)) [ none ↦ none | some n ↦ in_range (pos n) ]

digits_value_digit :
    (m d : ℕ) (rest : Text)
    → d < 10
    → digits_value m ((b'0' + d) ∷ rest) ≡ digits_value (m * 10 + d) rest
unfolding digits_value
digits_value_digit m d rest h = let e : b'0' + d - b'0' ≡ d = omega arith in rw e (ground arith)

digits_value-print_digits :
    (fuel n : ℕ) (rest : Text)
    → n < fuel
    → digits_value 0 (print_digits fuel n rest) ≡ digits_value n rest
unfolding print_digits
digits_value-print_digits zero n rest h = elim h [ ]
digits_value-print_digits (suc fuel) n rest h = elim (Bool-cases (ltb n 10)) [
  | inl last ↦ rw last (
      digits_value_digit 0 n rest (ground arith)
      ∙ ap (λ (m : ℕ). digits_value m rest) (omega arith))
  | inr more ↦ rw more (
      digits_value-print_digits fuel (n / 10) ((b'0' + n % 10) ∷ rest) (ground arith)
      ∙ digits_value_digit (n / 10) (n % 10) rest (omega arith)
      ∙ ap (λ (m : ℕ). digits_value m rest) (omega arith))
]

-- The first byte of a printed number is a digit.
abbrev StartsWithDigit : Text → Type 0
StartsWithDigit [] = ⊥
StartsWithDigit (c ∷ s) = b'0' ≤ c

print_digits-StartsWithDigit :
    (fuel n d : ℕ) (rest : Text) → StartsWithDigit (print_digits fuel n ((b'0' + d) ∷ rest))
unfolding print_digits
print_digits-StartsWithDigit zero n d rest = omega arith
print_digits-StartsWithDigit (suc fuel) n d rest =
    ground (arith, print_digits-StartsWithDigit fuel (n / 10) (n % 10) ((b'0' + d) ∷ rest))

print_ℕ-StartsWithDigit : (n : ℕ) → StartsWithDigit (print_ℕ n)
unfolding print_ℕ
print_ℕ-StartsWithDigit n = ground (arith, print_digits-StartsWithDigit n (n / 10) (n % 10) [])

digits_value-print_ℕ : (n : ℕ) → digits_value 0 (print_ℕ n) ≡ some n
unfolding print_ℕ digits_value
digits_value-print_ℕ n = digits_value-print_digits (suc n) n [] (omega arith)

parse_ℕ_digits : (s : Text) → StartsWithDigit s → parse_ℕ s ≡ digits_value 0 s
unfolding parse_ℕ
parse_ℕ_digits [] h = absurd h
parse_ℕ_digits (c ∷ s) h = refl

pub parse_ℕ-print_ℕ : (n : ℕ) → parse_ℕ (print_ℕ n) ≡ some n
parse_ℕ-print_ℕ n = parse_ℕ_digits _ (print_ℕ-StartsWithDigit n) ∙ digits_value-print_ℕ n

parse_int_digits :
    (s : Text)
    → StartsWithDigit s
    → parse_int s ≡ elim (parse_ℕ s) [ none ↦ none | some n ↦ in_range (pos n) ]
unfolding parse_int
parse_int_digits [] h = absurd h
parse_int_digits (c ∷ s) h = ground arith

-- Every `long long` is parsed back from its text.
pub parse_int-print_ℤ : (a : ℤ) → FitsInt64 a → parse_int (print_ℤ a) ≡ some a
unfolding print_ℤ
parse_int-print_ℤ (pos n) h =
    parse_int_digits _ (print_ℕ-StartsWithDigit n)
    ∙ rw (parse_ℕ-print_ℕ n) (unfold in_range in rw (FitsInt64-fits_int64 (pos n) h))
parse_int-print_ℤ (negsuc n) h =
    unfold parse_int in rw (parse_ℕ-print_ℕ (suc n)) (rw (FitsInt64-fits_int64 (negsuc n) h))
