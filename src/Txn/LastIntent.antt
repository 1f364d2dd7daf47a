-- ===== src/Txn/LastIntent.antt =====
-- The loop of `CommitWinner` over the intents, and the last intent for an object.
use data_agent_system.Prelude.{
  ◌≡◌, refl, ◌∙◌, Text, List, [], ◌∷◌, Option, none, some, inl, inr, Bool-cases, if◌then◌else◌,
  text_eq,
}
use data_agent_system.Prelude.Map.{Map, find, insert, find-insert}
use data_agent_system.Intent.Types.{WriteIntent}
use data_agent_system.Txn.Checks.{latest_intents}

-- The last intent for an object in the order of the log.
abbrev pub last_intent : List WriteIntent → Text → Option WriteIntent
last_intent [] object_id = none
last_intent (intent ∷ intents) object_id = elim (last_intent intents object_id) [
  | some later ↦ some later
  | none ↦ if text_eq intent.object_id object_id then some intent else none
]

pub or_else : Option WriteIntent → Option WriteIntent → Option WriteIntent
or_else (some later) o = some later
or_else none o = o

pub or_else-last_intent :
    (intent : WriteIntent) (later o : Option WriteIntent) (object_id : Text)
    → or_else later (if text_eq intent.object_id object_id then some intent else o)
      ≡ or_else
          (elim later [
            | some later ↦ some later
            | none ↦ if text_eq intent.object_id object_id then some intent else none
          ])
          o
unfolding or_else
or_else-last_intent intent (some later) o object_id = refl
or_else-last_intent intent none o object_id =
    elim (Bool-cases (text_eq intent.object_id object_id)) [ inl e ↦ rw e refl | inr e ↦ rw e refl ]

pub find-latest_intents :
    (intents : List WriteIntent) (latest : Map WriteIntent) (object_id : Text)
    → find object_id (latest_intents intents latest)
      ≡ or_else (last_intent intents object_id) (find object_id latest)
unfolding latest_intents
find-latest_intents [] latest object_id = unfold or_else in refl
find-latest_intents (intent ∷ intents) latest object_id =
    find-latest_intents intents (insert intent.object_id intent latest) object_id
    ∙ rw (find-insert intent.object_id object_id intent latest) (
        or_else-last_intent intent (last_intent intents object_id) (find object_id latest)
          object_id)

pub or_else-none : (o : Option WriteIntent) → or_else o none ≡ o
unfolding or_else
or_else-none (some later) = refl
or_else-none none = refl

pub find-latest_intents_empty :
    (intents : List WriteIntent) (object_id : Text)
    → find object_id (latest_intents intents []) ≡ last_intent intents object_id
unfolding find or_else
find-latest_intents_empty intents object_id =
    find-latest_intents intents [] object_id ∙ or_else-none (last_intent intents object_id)
