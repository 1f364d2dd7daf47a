-- ===== src/Log/Lines/Fields.antt =====
-- The printing of fields and numbers on a line, and their reading.
use data_agent_system.Prelude.{
  ℕ, ◌+◌, ◌-◌, ◌*◌, ◌^◌, ◌<◌, ◌≡◌, ◌≢◌, refl, ap, Text, false, [], ◌∷◌, ◌++◌, some, All, arith,
  ◌==◌, is_empty, All-append,
}
use data_agent_system.Intent.Number.{digits_value, parse_ℕ}
use data_agent_system.Log.Escape.{escape, tab, newline, IsPlain}
use data_agent_system.Log.Lines.{
  is_space, split_at, next_field, strtoull, signed_value, skip_spaces, leading_digits, clamp_uint64,
  negate_uint64,
}

pub leading_digits_all : (n m : ℕ) (t : Text) → digits_value n t ≡ some m → leading_digits n t ≡ m
unfolding digits_value leading_digits
leading_digits_all n m [] h = ground arith
leading_digits_all n m (c ∷ t) h = ground (arith, leading_digits_all (n * 10 + (c - b'0')) m t)

digits-IsPlain : (n m : ℕ) (t : Text) → digits_value n t ≡ some m → All IsPlain t
unfolding digits_value
digits-IsPlain n m [] h = tt
digits-IsPlain n m (c ∷ t) h = ground (arith, digits-IsPlain (n * 10 + (c - b'0')) m t)

split_at_before_tab : (t rest : Text) → All IsPlain t → split_at tab (t ++ tab ∷ rest) ≡ (t, rest)
unfolding split_at
split_at_before_tab [] rest p = refl
split_at_before_tab (c ∷ t) rest p = rw (split_at_before_tab t rest p.1) (ground (arith, p.0))

split_at_last : (t : Text) → All IsPlain t → split_at newline t ≡ (t, [])
unfolding split_at
split_at_last [] p = refl
split_at_last (c ∷ t) p = rw (split_at_last t p.1) (ground (arith, p.0))

pub next_field_before_tab :
    (t rest : Text) → All IsPlain t → next_field tab (t ++ tab ∷ rest) ≡ some (t, rest)
unfolding next_field
next_field_before_tab [] rest p = ap some (split_at_before_tab [] rest p)
next_field_before_tab (c ∷ t) rest p = ap some (split_at_before_tab (c ∷ t) rest p)

pub next_field_last :
    (t : Text) → All IsPlain t → is_empty t ≡ false → next_field newline t ≡ some (t, [])
unfolding next_field
next_field_last [] p e = cc e
next_field_last (c ∷ t) p e = ap some (split_at_last (c ∷ t) p)

pub first_digit :
    (c v : ℕ) (t : Text)
    → digits_value 0 (c ∷ t) ≡ some v
    → (is_space c ≡ false) × ((c == b'-') ≡ false) × ((c == b'+') ≡ false)
unfolding digits_value is_space
first_digit c v t h = (ground arith, ground arith, ground arith)

signed_value_digits :
    (c v : ℕ) (t : Text) → digits_value 0 (c ∷ t) ≡ some v → v < 2 ^ 64 → signed_value (c ∷ t) ≡ v
unfolding signed_value clamp_uint64
signed_value_digits c v t h b =
    let d = first_digit c v t h in rw (d.1, d.2, leading_digits_all 0 v (c ∷ t) h) (ground arith)

pub strtoull_digits : (t : Text) (v : ℕ) → parse_ℕ t ≡ some v → v < 2 ^ 64 → strtoull t ≡ v
unfolding strtoull skip_spaces parse_ℕ
strtoull_digits [] v h b = cc h
strtoull_digits (c ∷ t) v h b =
    rw ((first_digit c v t h).0, skip_spaces) (signed_value_digits c v t h b)

pub parse_ℕ-IsPlain : (t : Text) (v : ℕ) → parse_ℕ t ≡ some v → All IsPlain t
unfolding parse_ℕ
parse_ℕ-IsPlain [] v h = tt
parse_ℕ-IsPlain (c ∷ t) v h = digits-IsPlain 0 v (c ∷ t) h

pub escape-is_empty : (t : Text) → is_empty t ≡ false → is_empty (escape t) ≡ false
unfolding escape
escape-is_empty [] h = cc h
escape-is_empty (c ∷ t) h = ground arith

-- Not a newline.
abbrev pub IsOnLine : ℕ → Type 0
IsOnLine c = c ≢ newline

pub All-IsOnLine : (t : Text) → All IsPlain t → All IsOnLine t
All-IsOnLine [] p = tt
All-IsOnLine (c ∷ t) p = (p.0.1, All-IsOnLine t p.1)

pub All-tab : (s t : Text) → All IsOnLine s → All IsOnLine t → All IsOnLine (s ++ tab ∷ t)
All-tab s t p q = All-append IsOnLine s (tab ∷ t) p (ground arith, q)

clamp_uint64_bound : (n : ℕ) → clamp_uint64 n < 2 ^ 64
unfolding clamp_uint64
clamp_uint64_bound n = ground arith

negate_uint64_bound : (n : ℕ) → negate_uint64 n < 2 ^ 64
unfolding negate_uint64
negate_uint64_bound n = ground arith

signed_value_bound : (text : Text) → signed_value text < 2 ^ 64
unfolding signed_value
signed_value_bound [] = ground arith
signed_value_bound (c ∷ text) = ground (
  arith,
  negate_uint64_bound (leading_digits 0 text),
  clamp_uint64_bound (leading_digits 0 text),
  clamp_uint64_bound (leading_digits 0 (c ∷ text)),
)

pub strtoull_bound : (text : Text) → strtoull text < 2 ^ 64
unfolding strtoull
strtoull_bound text = signed_value_bound (skip_spaces text)
