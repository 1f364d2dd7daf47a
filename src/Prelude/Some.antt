-- ===== src/Prelude/Some.antt =====
-- Predicates of optional results.
use mathlib.Core.Path.{◌≡◌, refl}
use mathlib.Core.Bool.{Bool, true, false}
use mathlib.Core.Option.{Option, none, some}
use data_agent_system.Prelude.Tests.{if◌then◌else◌, ◌>>=◌}

-- A predicate of the result, where there is one.
abbrev pub IfSome : {A : Type 0} → (A → Type 0) → Option A → Type 0
IfSome P none = Unit
IfSome P (some a) = P a

pub IfSome-intro :
    {A : Type 0} {P : A → Type 0} (o : Option A) → ((a : A) → o ≡ some a → P a) → IfSome P o
IfSome-intro none h = tt
IfSome-intro (some a) h = h a refl

pub IfSome-bind :
    {A B : Type 0} (P : A → Type 0) (Q : B → Type 0) (f : A → Option B) (o : Option A)
    → IfSome P o
    → ((a : A) → P a → IfSome Q (f a))
    → IfSome Q (o >>= f)
IfSome-bind P Q f none h k = tt
IfSome-bind P Q f (some a) h k = k a h

pub IfSome-if :
    {A : Type 0} (P : A → Type 0) (b : Bool) (o q : Option A)
    → (b ≡ true → IfSome P o)
    → IfSome P q
    → IfSome P (if b then o else q)
IfSome-if P true o q h k = h refl
IfSome-if P false o q h k = k
