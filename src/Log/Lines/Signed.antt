-- ===== src/Log/Lines/Signed.antt =====
-- The printing of a `long long` and its reading.
use data_agent_system.Prelude.{ℕ, suc, ◌^◌, ◌<◌, ◌≡◌, Text, [], ◌∷◌, some, arith}
use data_agent_system.Prelude.Int.{ℤ, pos, negsuc, FitsInt64}
use data_agent_system.Intent.Number.{
  digits_value, parse_ℕ, print_ℕ, print_ℤ, parse_ℕ-print_ℕ, negate,
}
use data_agent_system.Log.Lines.{
  is_space, strtoll, signed_number, signed_int64, skip_spaces, leading_digits,
}
use data_agent_system.Log.Lines.Fields.{leading_digits_all, first_digit}

leading_digits_parsed : (t : Text) (v : ℕ) → parse_ℕ t ≡ some v → leading_digits 0 t ≡ v
unfolding parse_ℕ
leading_digits_parsed [] v h = cc h
leading_digits_parsed (c ∷ t) v h = leading_digits_all 0 v (c ∷ t) h

signed_number_digits :
    (c v : ℕ) (t : Text)
    → digits_value 0 (c ∷ t) ≡ some v
    → v < 2 ^ 63
    → signed_number (c ∷ t) ≡ pos v
unfolding signed_number signed_int64
signed_number_digits c v t h b =
    let d = first_digit c v t h in rw (d.1, d.2, leading_digits_all 0 v (c ∷ t) h) (ground arith)

strtoll_digits : (t : Text) (v : ℕ) → parse_ℕ t ≡ some v → v < 2 ^ 63 → strtoll t ≡ pos v
unfolding strtoll skip_spaces parse_ℕ
strtoll_digits [] v h b = cc h
strtoll_digits (c ∷ t) v h b =
    rw ((first_digit c v t h).0, skip_spaces) (signed_number_digits c v t h b)

strtoll_minus :
    (t : Text) (n : ℕ) → parse_ℕ t ≡ some (suc n) → n < 2 ^ 63 → strtoll (b'-' ∷ t) ≡ negsuc n
unfolding strtoll skip_spaces is_space signed_number signed_int64 negate
strtoll_minus t n h b = rw (leading_digits_parsed t (suc n) h) (ground arith)

pub strtoll-print_ℤ : (a : ℤ) → FitsInt64 a → strtoll (print_ℤ a) ≡ a
unfolding print_ℤ
strtoll-print_ℤ (pos n) h = strtoll_digits (print_ℕ n) n (parse_ℕ-print_ℕ n) h.0
strtoll-print_ℤ (negsuc n) h =
    strtoll_minus (print_ℕ (suc n)) n (parse_ℕ-print_ℕ (suc n)) (omega arith)
