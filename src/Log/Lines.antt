-- ===== src/Log/Lines.antt =====
-- The text that the readers of the logs take apart: `std::getline` of a file and of a line,
-- `std::string::find` and `std::strtoull`, and the flags that the writers print.
pub mod Fields
pub mod Unlines
pub mod Signed
pub mod Keys
use data_agent_system.Prelude.{
  ℕ, ◌+◌, ◌-◌, ◌*◌, ◌%◌, ◌^◌, Text, Bool, true, false, List, [], ◌∷◌, ◌++◌, Option, none, some,
  ◌==◌, ◌&&◌, ◌||◌, ltb, leb, codes, if◌then◌else◌,
}
use data_agent_system.Prelude.Int.{ℤ, pos, negsuc}
use data_agent_system.Intent.Number.{negate}
use data_agent_system.Log.Escape.{newline}

-- A flag, printed with `? 1 : 0` or `? '1' : '0'`.
unfoldable pub flag : Bool → Text
flag true = codes "1"
flag false = codes "0"

-- The lines that `std::getline` reads of a text: a last line needs no newline, and is not empty.
pub join_line : ℕ → List Text → List Text
join_line c [] = (c ∷ []) ∷ []
join_line c (l ∷ lines) = (c ∷ l) ∷ lines

unfoldable pub lines_of : Text → List Text
unfolding join_line
lines_of [] = []
lines_of (c ∷ text) =
    let rest = lines_of text in if c == newline then [] ∷ rest else join_line c rest

-- The text of lines that each end with a newline.
abbrev pub unlines : List Text → Text
unlines [] = []
unlines (text ∷ lines) = text ++ newline ∷ unlines lines

-- The text before and behind the first `delimiter`; all of it where there is none.
unfoldable pub split_at : ℕ → Text → Text × Text
split_at delimiter [] = ([], [])
split_at delimiter (c ∷ text) =
    let (field, rest) = split_at delimiter text in
    if c == delimiter then ([], text) else (c ∷ field, rest)

-- `std::getline(stream, field, delimiter)` fails at the end of the stream.
unfoldable pub next_field : ℕ → Text → Option (Text × Text)
unfolding split_at
next_field delimiter [] = none
next_field delimiter (c ∷ text) = some (split_at delimiter (c ∷ text))

unfoldable pub has_char : ℕ → Text → Bool
has_char delimiter [] = false
has_char delimiter (c ∷ text) = c == delimiter || has_char delimiter text

-- `std::isspace` in the "C" locale.
pub is_space : ℕ → Bool
is_space c = c == 32 || (leb 9 c && leb c 13)

skip_spaces : Text → Text
skip_spaces [] = []
skip_spaces (c ∷ text) = let rest = skip_spaces text in if is_space c then rest else c ∷ text

-- The number that the leading digits stand for, with the number before them.
pub leading_digits : ℕ → Text → ℕ
leading_digits n [] = n
leading_digits n (c ∷ text) =
    let rest = leading_digits (n * 10 + (c - b'0')) text in
    if leb b'0' c && leb c b'9' then rest else n

clamp_uint64 : ℕ → ℕ
clamp_uint64 n = if ltb n (2 ^ 64) then n else 2 ^ 64 - 1

negate_uint64 : ℕ → ℕ
negate_uint64 n = if ltb n (2 ^ 64) then (2 ^ 64 - n) % 2 ^ 64 else 2 ^ 64 - 1

signed_value : Text → ℕ
signed_value [] = 0
signed_value (c ∷ text) =
    if c == b'-'
    then negate_uint64 (leading_digits 0 text)
    else clamp_uint64 (if c == b'+' then leading_digits 0 text else leading_digits 0 (c ∷ text))

-- `std::strtoull(text, nullptr, 10)`
unfoldable pub strtoull : Text → ℕ
unfolding signed_value skip_spaces leading_digits clamp_uint64 negate_uint64 is_space
strtoull text = signed_value (skip_spaces text)

signed_int64 : Bool → ℕ → ℤ
signed_int64 true n = if ltb n (2 ^ 63) then negate n else negsuc (2 ^ 63 - 1)
signed_int64 false n = if ltb n (2 ^ 63) then pos n else pos (2 ^ 63 - 1)

signed_number : Text → ℤ
unfolding signed_int64
signed_number [] = pos 0
signed_number (c ∷ text) =
    if c == b'-'
    then signed_int64 true (leading_digits 0 text)
    else signed_int64 false
        (if c == b'+' then leading_digits 0 text else leading_digits 0 (c ∷ text))

-- `std::strtoll(text, nullptr, 10)`
unfoldable pub strtoll : Text → ℤ
unfolding signed_number signed_int64 skip_spaces leading_digits is_space
strtoll text = signed_number (skip_spaces text)

-- The parts of a text between the delimiters.
unfoldable pub split_all : ℕ → Text → List Text
unfolding join_line
split_all delimiter [] = [] ∷ []
split_all delimiter (c ∷ text) =
    let rest = split_all delimiter text in if c == delimiter then [] ∷ rest else join_line c rest

-- A line `key=value`, from the key and the text of the value.
abbrev pub key_value : Text × Text → Text
key_value (key, value) = key ++ b'=' ∷ value
