-- ===== src/Fallback/Disk.antt =====
-- The part of the file system that the artifacts use. Each call that can fail takes the next of
-- the outcomes that the environment chose; when none is left, calls succeed.
use data_agent_system.Prelude.{
  ℕ, Text, Bool, true, false, List, [], ◌∷◌, Option, none, some, take, is_some,
}
use data_agent_system.Prelude.{◌≡◌, refl, text_eq}
use data_agent_system.Prelude.Map.{Map, find, insert, erase, find-insert, find-erase}

-- `failed n` of a write leaves the first `n` bytes.
pub data IoOutcome : Type 0 where
  succeeded : IoOutcome
  failed : ℕ → IoOutcome

pub record Disk : Type 0 where
  pub files : Map Text
  pub outcomes : List IoOutcome

first_outcome : List IoOutcome → IoOutcome
first_outcome [] = succeeded
first_outcome (o ∷ outcomes) = o

other_outcomes : List IoOutcome → List IoOutcome
other_outcomes [] = []
other_outcomes (o ∷ outcomes) = outcomes

-- The disk after a call, with its files and without the outcome that the call took.
after : Disk → Map Text → Disk
unfolding other_outcomes
after d files = record { files = files; outcomes = other_outcomes d.outcomes }

-- `std::ofstream output(path, std::ios::trunc)` and `is_open`
unfoldable pub open_truncated : Text → Disk → Disk × Bool
unfolding after first_outcome
open_truncated path d = elim (first_outcome d.outcomes) [
  | succeeded ↦ (after d (insert path [] d.files), true)
  | failed n ↦ (after d d.files, false)
]

-- The output operators, `flush` and `good`.
unfoldable pub write_flushed : Text → Text → Disk → Disk × Bool
unfolding after first_outcome
write_flushed path content d = elim (first_outcome d.outcomes) [
  | succeeded ↦ (after d (insert path content d.files), true)
  | failed n ↦ (after d (insert path (take n content) d.files), false)
]

moved : Text → Option Text → Text → Map Text → Map Text
moved from none to files = files
moved from (some content) to files = insert to content (erase from files)

-- `std::rename`, which fails where there is no file to rename.
unfoldable pub rename : Text → Text → Disk → Disk × Bool
unfolding after first_outcome moved
rename from to d = elim (first_outcome d.outcomes) [
  | succeeded ↦ (after d (moved from (find from d.files) to d.files), is_some (find from d.files))
  | failed n ↦ (after d d.files, false)
]

-- `std::remove`, whose result the artifacts ignore.
unfoldable pub remove : Text → Disk → Disk
unfolding after first_outcome
remove path d = elim (first_outcome d.outcomes) [
  | succeeded ↦ after d (erase path d.files)
  | failed n ↦ after d d.files
]

-- `std::remove(path) == 0`: it fails where there is no file.
unfoldable pub remove_tested : Text → Disk → Disk × Bool
unfolding after first_outcome
remove_tested path d = elim (first_outcome d.outcomes) [
  | succeeded ↦ (after d (erase path d.files), is_some (find path d.files))
  | failed n ↦ (after d d.files, false)
]

-- `std::filesystem::remove(path, error)` and `!error`: no file is no error.
unfoldable pub remove_if_exists : Text → Disk → Disk × Bool
unfolding after first_outcome
remove_if_exists path d = elim (first_outcome d.outcomes) [
  | succeeded ↦ (after d (erase path d.files), true)
  | failed n ↦ (after d d.files, false)
]

-- `std::filesystem::create_directories`. The files are known by their paths alone, so that a
-- directory that exists leaves no trace; the call can fail.
unfoldable pub create_directories : Text → Disk → Disk × Bool
unfolding after first_outcome
create_directories path d = elim (first_outcome d.outcomes) [
  | succeeded ↦ (after d d.files, true)
  | failed n ↦ (after d d.files, false)
]

-- A file that is not an argument of the call.
module _ (key : Text) where
  moved_elsewhere :
      (from to : Text) (content : Option Text) (files : Map Text)
      → text_eq from key ≡ false
      → text_eq to key ≡ false
      → find key (moved from content to files) ≡ find key files
  unfolding moved
  moved_elsewhere from to none files f t = refl
  moved_elsewhere from to (some content) files f t = simp (find-insert, find-erase, f, t)

  pub rename_elsewhere :
      (from to : Text) (d : Disk)
      → text_eq from key ≡ false
      → text_eq to key ≡ false
      → find key (rename from to d).0.files ≡ find key d.files
  unfolding rename
  rename_elsewhere from to d f t =
      elim (first_outcome d.outcomes)
        as (λ o.
          find key
            (elim o as (λ p. Disk × Bool) [
              | succeeded ↦
                  (after d (moved from (find from d.files) to d.files), is_some (find from d.files))
              | failed n ↦ (after d d.files, false)
            ]).0.files
          ≡ find key d.files) [
            | succeeded ↦ moved_elsewhere from to (find from d.files) d.files f t
            | failed n ↦ refl
          ]

  pub remove_if_exists_elsewhere :
      (path : Text) (d : Disk)
      → text_eq path key ≡ false
      → find key (remove_if_exists path d).0.files ≡ find key d.files
  unfolding remove_if_exists
  remove_if_exists_elsewhere path d h =
      elim (first_outcome d.outcomes)
        as (λ o.
          find key
            (elim o as (λ p. Disk × Bool) [
              | succeeded ↦ (after d (erase path d.files), true)
              | failed n ↦ (after d d.files, false)
            ]).0.files
          ≡ find key d.files) [ succeeded ↦ simp (find-erase, h) | failed n ↦ refl ]

  pub create_directories_elsewhere :
      (path : Text) (d : Disk) → find key (create_directories path d).0.files ≡ find key d.files
  unfolding create_directories
  create_directories_elsewhere path d =
      elim (first_outcome d.outcomes)
        as (λ o.
          find key
            (elim o as (λ p. Disk × Bool) [
              | succeeded ↦ (after d d.files, true)
              | failed n ↦ (after d d.files, false)
            ]).0.files
          ≡ find key d.files) [ succeeded ↦ refl | failed n ↦ refl ]
