-- ===== src/Fallback/Directory/Order.antt =====
-- The order of the files of a directory and its listing (recovery_manager.h).
use mathlib.Core.List.{Perm, Permᴰ}
use mathlib.Core.Logic.{∥∥₁_elim}
use data_agent_system.Prelude.{
  ◌≡◌, refl, sym, ap, ◌∙◌, Text, true, false, List, [], ◌∷◌, arith, Bool-cases, inl, inr,
}
use data_agent_system.Prelude.Map.{Map}
use data_agent_system.Fallback.Directory.{
  text_le, sorted_insert, sort_paths, listed_paths, list_paths_with_suffix, is_listed,
}

text_le_total : (s t : Text) → text_le s t ≡ false → text_le t s ≡ true
unfolding text_le
text_le_total [] t h = cc h
text_le_total (a ∷ s) [] h = refl
text_le_total (a ∷ s) (b ∷ t) h = ground (arith, text_le_total s t)

text_le_trans : (s t u : Text) → text_le s t ≡ true → text_le t u ≡ true → text_le s u ≡ true
unfolding text_le
text_le_trans [] t u h i = refl
text_le_trans (a ∷ s) [] u h i = cc h
text_le_trans (a ∷ s) (b ∷ t) [] h i = cc i
text_le_trans (a ∷ s) (b ∷ t) (c ∷ u) h i = ground (arith, text_le_trans s t u)

text_le_antisym : (s t : Text) → text_le s t ≡ true → text_le t s ≡ true → s ≡ t
unfolding text_le
text_le_antisym [] [] h i = refl
text_le_antisym [] (b ∷ t) h i = cc i
text_le_antisym (a ∷ s) [] h i = cc h
text_le_antisym (a ∷ s) (b ∷ t) h i = ground (arith, text_le_antisym s t)

sorted_insert_comm :
    (p q : Text) (paths : List Text)
    → sorted_insert p (sorted_insert q paths) ≡ sorted_insert q (sorted_insert p paths)
unfolding sorted_insert
sorted_insert_comm p q [] =
    ground (arith, text_le_total p q, text_le_total q p, text_le_antisym p q)
sorted_insert_comm p q (o ∷ paths) = ground (
  arith,
  text_le_total p q,
  text_le_total q p,
  text_le_antisym p q,
  text_le_trans p q o,
  text_le_trans q p o,
  sorted_insert_comm p q paths,
)

listed_paths-permᴰ :
    (dir suffix : Text) {files files' : Map Text}
    → Permᴰ files files'
    → sort_paths (listed_paths dir suffix files) ≡ sort_paths (listed_paths dir suffix files')
unfolding listed_paths sort_paths
listed_paths-permᴰ dir suffix Permᴰ.nil = refl
listed_paths-permᴰ dir suffix (Permᴰ.cons {a = (p, c)} e h) =
    rw (sym e) (elim (Bool-cases (is_listed dir suffix p)) [
      | inl i ↦ rw i (ap (sorted_insert p) (listed_paths-permᴰ dir suffix h))
      | inr i ↦ rw i (listed_paths-permᴰ dir suffix h)
    ])
listed_paths-permᴰ dir suffix (Permᴰ.swap {a = (p, c)} {b = (q, d)} {l = files} e f) =
    rw (sym e, sym f)
      (elim (Bool-cases (is_listed dir suffix p)) [
        | inl i ↦ elim (Bool-cases (is_listed dir suffix q)) [
          | inl j ↦ rw (i, j) (sorted_insert_comm p q (sort_paths (listed_paths dir suffix files)))
          | inr j ↦ rw (i, j) refl
        ]
        | inr i ↦ rw i refl
      ])
listed_paths-permᴰ dir suffix (Permᴰ.trans g h) =
    listed_paths-permᴰ dir suffix g ∙ listed_paths-permᴰ dir suffix h

Texts-set : IsSet (List Text)
Texts-set = hlevel

-- The list of the paths of a directory is the same in whatever order the system gives the files.
pub list_paths_with_suffix-perm :
    (dir suffix : Text) (files files' : Map Text)
    → Perm files files'
    → list_paths_with_suffix dir suffix files ≡ list_paths_with_suffix dir suffix files'
unfolding list_paths_with_suffix
list_paths_with_suffix-perm dir suffix files files' p =
    ∥∥₁_elim p (Texts-set _ _) (listed_paths-permᴰ dir suffix)
