-- ===== src/Log/Lines/Unlines.antt =====
-- A text of lines, each ended by a newline, and its reading line by line.
use data_agent_system.Prelude.{
  is_empty, ◌≡◌, ◌≢◌, refl, ap, ◌∙◌, Text, List, [], ◌∷◌, ◌++◌, All, arith, false, append_assoc,
  text_eq,
}
use data_agent_system.Log.Escape.{tab, newline}
use data_agent_system.Log.Lines.{lines_of, unlines}
use data_agent_system.Log.Lines.Fields.{IsOnLine}

lines_of_first :
    (text rest : Text)
    → All IsOnLine text
    → lines_of (text ++ newline ∷ rest) ≡ text ∷ lines_of rest
unfolding lines_of
lines_of_first [] rest h = refl
lines_of_first (c ∷ text) rest h = rw (lines_of_first text rest h.1) (ground (arith, h.0))

pub lines_of-unlines :
    (lines : List Text) → All (All IsOnLine) lines → lines_of (unlines lines) ≡ lines
lines_of-unlines [] h = unfold lines_of in refl
lines_of-unlines (text ∷ lines) h =
    lines_of_first text (unlines lines) h.0 ∙ ap (◌∷◌ text) (lines_of-unlines lines h.1)

pub unlines-append :
    (lines more : List Text) → unlines lines ++ unlines more ≡ unlines (lines ++ more)
unlines-append [] more = refl
unlines-append (text ∷ lines) more =
    append_assoc text (newline ∷ unlines lines) (unlines more)
    ∙ ap (λ (t : Text). text ++ newline ∷ t) (unlines-append lines more)

-- A line with a tab is not one of the marks, which have none.
pub tab_ne_mark :
    (s rest mark : Text) → All (λ c. c ≢ tab) mark → text_eq (s ++ tab ∷ rest) mark ≡ false
unfolding text_eq
tab_ne_mark [] rest [] h = refl
tab_ne_mark (c ∷ s) rest [] h = refl
tab_ne_mark [] rest (d ∷ mark) h = ground (arith, h.0)
tab_ne_mark (c ∷ s) rest (d ∷ mark) h = ground (arith, tab_ne_mark s rest mark h.1)

pub has_tab-is_empty : (s rest : Text) → is_empty (s ++ tab ∷ rest) ≡ false
has_tab-is_empty [] rest = refl
has_tab-is_empty (c ∷ s) rest = refl
