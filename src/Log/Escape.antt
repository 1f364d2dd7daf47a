-- ===== src/Log/Escape.antt =====
-- `EscapeCommitLogText` and `UnescapeCommitLogText` of agent_txn/commit_log_io.h. `Escape` and
-- `Unescape` of storage/file_kv_store.h are the same text.
use data_agent_system.Prelude.{
  ℕ, ◌≡◌, ◌≢◌, refl, ap, [], ◌∷◌, Bool, true, false, ◌||◌, Text, arith, if◌then◌else◌, ◌==◌, All,
  Bool-cases, inl, inr, ◌∙◌,
}

abbrev pub tab : ℕ
tab = 9

abbrev pub newline : ℕ
newline = 10

abbrev backslash : ℕ
backslash = b'\\'

-- The letter behind the backslash.
escape_letter : ℕ → ℕ
escape_letter ch = if ch == backslash then backslash else if ch == tab then b't' else b'n'

is_special : ℕ → Bool
is_special ch = ch == backslash || (ch == tab || ch == newline)

unfoldable pub escape : Text → Text
unfolding escape_letter is_special
escape [] = []
escape (ch ∷ input) =
    if is_special ch then backslash ∷ escape_letter ch ∷ escape input else ch ∷ escape input

-- What an escaped character stands for.
unescape_letter : ℕ → ℕ
unescape_letter ch = if ch == b't' then tab else if ch == b'n' then newline else ch

-- The loop over the text, with the flag `escaped`.
unescape_from : Bool → Text → Text
unfolding unescape_letter
unescape_from true [] = backslash ∷ []
unescape_from false [] = []
unescape_from true (ch ∷ input) = unescape_letter ch ∷ unescape_from false input
unescape_from false (ch ∷ input) =
    let rest = unescape_from (ch == backslash) input in if ch == backslash then rest else ch ∷ rest

unfoldable pub unescape : Text → Text
unfolding unescape_from
unescape = unescape_from false

escape_letter-is_special : (ch : ℕ) → is_special ch ≡ true → unescape_letter (escape_letter ch) ≡ ch
unfolding is_special unescape_letter escape_letter
escape_letter-is_special ch h = ground arith

plain_ne_backslash : (ch : ℕ) → is_special ch ≡ false → (ch == backslash) ≡ false
unfolding is_special
plain_ne_backslash ch h = ground arith

unescape-escape_special :
    (ch : ℕ) (text : Text)
    → is_special ch ≡ true
    → unescape (escape (ch ∷ text)) ≡ ch ∷ unescape (escape text)
unfolding escape unescape
unescape-escape_special ch text h =
    rw (h, escape) (ap (λ (c : ℕ). c ∷ unescape (escape text)) (escape_letter-is_special ch h))

unescape-escape_plain :
    (ch : ℕ) (text : Text)
    → is_special ch ≡ false
    → unescape (escape (ch ∷ text)) ≡ ch ∷ unescape (escape text)
unfolding escape unescape
unescape-escape_plain ch text h = rw (h, escape) (rw (plain_ne_backslash ch h))

-- Every text survives the two.
pub unescape-escape : (text : Text) → unescape (escape text) ≡ text
unescape-escape [] = unfold escape unescape in refl
unescape-escape (ch ∷ text) = elim (Bool-cases (is_special ch)) [
  | inl h ↦ unescape-escape_special ch text h ∙ ap (◌∷◌ ch) (unescape-escape text)
  | inr h ↦ unescape-escape_plain ch text h ∙ ap (◌∷◌ ch) (unescape-escape text)
]

-- A text with no backslash is read as it is.
pub unescape-unescaped : (text : Text) → All (λ c. c ≢ b'\\') text → unescape text ≡ text
unfolding unescape
unescape-unescaped [] h = refl
unescape-unescaped (ch ∷ text) h =
    let plain : (ch == backslash) ≡ false = ground (arith, h.0) in
    rw plain (ap (◌∷◌ ch) (unescape-unescaped text h.1))

abbrev pub IsPlain : ℕ → Type 0
IsPlain ch = (ch ≢ tab) × (ch ≢ newline)

-- An escaped text holds neither separator of the formats, a tab or a newline.
pub escape-IsPlain : (text : Text) → All IsPlain (escape text)
unfolding escape
escape-IsPlain [] = tt
escape-IsPlain (ch ∷ text) = ground (arith, escape-IsPlain text)
