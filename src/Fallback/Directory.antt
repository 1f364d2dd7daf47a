-- ===== src/Fallback/Directory.antt =====
-- `ListPathsWithSuffix` of agent_txn/recovery_manager.h and `ListTaskLogs` of
-- runtime/task_recovery_manager.h. A path is its text, and a directory is the files whose paths are
-- its text, a slash and a name.
pub mod Order
use data_agent_system.Prelude.{
  ℕ, Text, Bool, true, false, List, [], ◌∷◌, ◌++◌, ◌==◌, ◌||◌, ◌&&◌, ltb, Option, none, some,
  text_eq, is_empty, not, length, drop, ◌-◌, if◌then◌else◌,
}
use data_agent_system.Prelude.Map.{Map}
use data_agent_system.Log.Lines.{has_char}

abbrev pub slash : ℕ
slash = b'/'

-- `EndsWith`
unfoldable pub ends_with : Text → Text → Bool
unfolding text_eq
ends_with suffix value =
    if ltb (length value) (length suffix)
    then false
    else text_eq (drop (length value - length suffix) value) suffix

-- What is left of a text behind a prefix.
unfoldable pub strip_prefix : Text → Text → Option Text
strip_prefix [] text = some text
strip_prefix (c ∷ prefix) [] = none
strip_prefix (c ∷ prefix) (d ∷ text) =
    let rest = strip_prefix prefix text in if c == d then rest else none

is_name : Option Text → Text → Bool
unfolding ends_with has_char
is_name none suffix = false
is_name (some name) suffix =
    not (is_empty name) && (not (has_char slash name) && ends_with suffix name)

-- The path of a file of the directory whose name has the suffix.
unfoldable pub is_listed : Text → Text → Text → Bool
unfolding is_name strip_prefix
is_listed dir suffix path = is_name (strip_prefix (dir ++ slash ∷ []) path) suffix

-- `<=` of `std::string`
unfoldable pub text_le : Text → Text → Bool
text_le [] t = true
text_le (a ∷ s) [] = false
text_le (a ∷ s) (b ∷ t) = ltb a b || (a == b && text_le s t)

unfoldable pub sorted_insert : Text → List Text → List Text
sorted_insert path [] = path ∷ []
sorted_insert path (q ∷ paths) =
    let rest = sorted_insert path paths in if text_le path q then path ∷ q ∷ paths else q ∷ rest

-- The paths that `readdir` gives, in the order of the files, and the sorted ones.
unfoldable pub listed_paths : Text → Text → Map Text → List Text
listed_paths dir suffix [] = []
listed_paths dir suffix ((path, content) ∷ files) =
    let rest = listed_paths dir suffix files in
    if is_listed dir suffix path then path ∷ rest else rest

unfoldable pub sort_paths : List Text → List Text
unfolding sorted_insert
sort_paths [] = []
sort_paths (path ∷ paths) = sorted_insert path (sort_paths paths)

unfoldable pub list_paths_with_suffix : Text → Text → Map Text → List Text
unfolding listed_paths sort_paths
list_paths_with_suffix dir suffix files = sort_paths (listed_paths dir suffix files)
