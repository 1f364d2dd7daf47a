-- ===== src/Intent/Log.antt =====
-- intent/intent_log.h
use data_agent_system.Prelude.{
  ℕ, ◌≤◌, ◌≡◌, List, [], ◌∷◌, ◌++◌, arith, ltb, length, take, take_all, take-append, take-take,
  length-append, length-take, if◌then◌else◌, ◌+◌,
}
use data_agent_system.Intent.Types.{WriteIntent}

-- Oldest first.
pub record IntentLog : Type 0 where
  pub intents : List WriteIntent

abbrev pub empty : IntentLog
empty = record { intents = [] }

unfoldable pub append : WriteIntent → IntentLog → IntentLog
append intent log = record { intents = log.intents ++ intent ∷ [] }

unfoldable pub size : IntentLog → ℕ
size log = length log.intents

-- `resize` is called only to make the vector shorter.
unfoldable pub truncate : ℕ → IntentLog → IntentLog
truncate n log = if ltb n (length log.intents) then record { intents = take n log.intents } else log

truncate-take : (n : ℕ) (log : IntentLog) → truncate n log ≡ record { intents = take n log.intents }
unfolding truncate
truncate-take n log = ground (arith, take_all n log.intents)

pub truncate_all : (n : ℕ) (log : IntentLog) → size log ≤ n → truncate n log ≡ log
unfolding size truncate
truncate_all n log h = ground arith

pub truncate-append :
    (n : ℕ) (intent : WriteIntent) (log : IntentLog)
    → n ≤ size log
    → truncate n (append intent log) ≡ truncate n log
unfolding append size
truncate-append n intent log h = cc (
  truncate-take n (append intent log),
  truncate-take n log,
  take-append n log.intents (intent ∷ []) h,
)

pub truncate-truncate :
    (n m : ℕ) (log : IntentLog) → n ≤ m → truncate n (truncate m log) ≡ truncate n log
truncate-truncate n m log h = cc (
  truncate-take n (truncate m log),
  truncate-take m log,
  truncate-take n log,
  take-take n m log.intents h,
)

pub size-append : (intent : WriteIntent) (log : IntentLog) → size (append intent log) ≡ size log + 1
unfolding size append
size-append intent log = omega (arith, length-append {0} log.intents (intent ∷ []))

pub size-truncate : (n : ℕ) (log : IntentLog) → n ≤ size log → size (truncate n log) ≡ n
unfolding size truncate
size-truncate n log h = ground (arith, length-take n log.intents)

pub truncate_zero : (log : IntentLog) → truncate 0 log ≡ empty
truncate_zero log = truncate-take 0 log
