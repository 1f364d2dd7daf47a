-- ===== src/Prelude/Map.antt =====
-- `std::unordered_map<std::string, V>` as an association list. A new key goes to the end and a
-- known key keeps its place; the code never relies on the order of an iteration.
use mathlib.Core.Path.{◌≡◌, refl}
use mathlib.Core.List.{List, [], ◌∷◌}
use mathlib.Core.Option.{Option, none, some}
use native.Mathlib.Omega.{arith}
use data_agent_system.Prelude.Tests.{if◌then◌else◌}
use data_agent_system.Prelude.Bytes.{Text, text_eq, text_eq_iff, text_eq_refl}

abbrev pub Map {ℓ} : Type ℓ → Type ℓ
Map V = List (Text × V)

module _ {ℓ} {V : Type ℓ} where
  -- `m.find(k)`, `none` for `m.end()`
  unfoldable pub find : Text → Map V → Option V
  find k [] = none
  find k ((j, v) ∷ m) = if text_eq j k then some v else find k m

  -- `m[k] = v`
  unfoldable pub insert : Text → V → Map V → Map V
  insert k v [] = (k, v) ∷ []
  insert k v ((j, w) ∷ m) = if text_eq j k then (j, v) ∷ m else (j, w) ∷ insert k v m

  -- `m.erase(k)`
  unfoldable pub erase : Text → Map V → Map V
  erase k [] = []
  erase k ((j, w) ∷ m) = if text_eq j k then erase k m else (j, w) ∷ erase k m

  pub find-insert :
      (k j : Text) (v : V) (m : Map V)
      → find j (insert k v m) ≡ (if text_eq k j then some v else find j m)
  unfolding find insert
  find-insert k j v [] = refl
  find-insert k j v ((i, w) ∷ m) =
      ground (arith, text_eq_iff k j, text_eq_iff i k, text_eq_iff i j, find-insert k j v m)

  pub find-erase :
      (k j : Text) (m : Map V) → find j (erase k m) ≡ (if text_eq k j then none else find j m)
  unfolding find erase
  find-erase k j [] = ground arith
  find-erase k j ((i, w) ∷ m) =
      ground (arith, text_eq_iff k j, text_eq_iff i k, text_eq_iff i j, find-erase k j m)

  pub find-insert_self : (k : Text) (v : V) (m : Map V) → find k (insert k v m) ≡ some v
  find-insert_self k v m = simp (find-insert, text_eq_refl)

  -- Writing the old value back undoes a write to a known key, the order of the keys included.
  pub insert-insert_old :
      (k : Text) (v old : V) (m : Map V) → find k m ≡ some old → insert k old (insert k v m) ≡ m
  unfolding find insert
  insert-insert_old k v old [] h = cc
  insert-insert_old k v old ((i, w) ∷ m) h = ground (arith, insert-insert_old k v old m)

  -- Erasing undoes a write to a new key.
  pub erase-insert_new :
      (k : Text) (v : V) (m : Map V) → find k m ≡ none → erase k (insert k v m) ≡ m
  unfolding find insert erase
  erase-insert_new k v [] h = rw text_eq_refl
  erase-insert_new k v ((i, w) ∷ m) h = ground (arith, erase-insert_new k v m)

pub ruleset map_laws = (find-insert, find-erase)
