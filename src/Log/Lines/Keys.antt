-- ===== src/Log/Lines/Keys.antt =====
-- The printing of a line `key=value` and its reading.
use data_agent_system.Prelude.{
  ℕ, ◌≡◌, ◌≢◌, refl, Text, true, false, [], ◌∷◌, ◌++◌, All, arith, text_eq, is_empty,
}
use data_agent_system.Log.Escape.{newline}
use data_agent_system.Log.Lines.{split_at, has_char}
use data_agent_system.Log.Lines.Fields.{IsOnLine}

-- A byte of a key.
abbrev pub IsKeyByte : ℕ → Type 0
IsKeyByte c = (c ≢ b'=') × (c ≢ newline)

-- A key that is read back, and a text on one line.
abbrev pub IsField : Text × Text → Type 0
IsField (key, value) = All IsKeyByte key × All IsOnLine value

pub split_at-key :
    (key value : Text) → All IsKeyByte key → split_at b'=' (key ++ b'=' ∷ value) ≡ (key, value)
unfolding split_at
split_at-key [] value h = refl
split_at-key (c ∷ key) value h = rw (split_at-key key value h.1) (ground (arith, h.0))

pub has_char-key : (key value : Text) → has_char b'=' (key ++ b'=' ∷ value) ≡ true
unfolding has_char
has_char-key [] value = refl
has_char-key (c ∷ key) value = rw (has_char-key key value) (ground arith)

pub key_ne_mark :
    (key value mark : Text) → All (λ c. c ≢ b'=') mark → text_eq (key ++ b'=' ∷ value) mark ≡ false
unfolding text_eq
key_ne_mark [] value [] h = refl
key_ne_mark (c ∷ key) value [] h = refl
key_ne_mark [] value (d ∷ mark) h = ground (arith, h.0)
key_ne_mark (c ∷ key) value (d ∷ mark) h = ground (arith, key_ne_mark key value mark h.1)

pub key-is_empty : (key value : Text) → is_empty (key ++ b'=' ∷ value) ≡ false
key-is_empty [] value = refl
key-is_empty (c ∷ key) value = refl
