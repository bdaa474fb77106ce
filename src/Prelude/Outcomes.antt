-- ===== src/Prelude/Outcomes.antt =====
-- How a run of C++ code ends: with a value, by `exit(EXIT_FAILURE)`, in undefined behaviour (a
-- vector indexed out of bounds, a dereferenced end iterator, a signed overflow), or never.
use reliable_service_framewo.Prelude.Tests.{if◌then◌else◌}
use mathlib.Core.Path.{◌≡◌, refl}
use mathlib.Core.Bool.{Bool, true, false}
use mathlib.Core.Option.{Option, none, some}

pub data Outcome {ℓ} (A : Type ℓ) : Type ℓ where
  ok : A → Outcome A
  exits undefined hangs : Outcome A

infixl 5 ◌>>=◌ ◌>>◌
abbrev pub ◌>>=◌ {ℓ κ} : {A : Type ℓ} {B : Type κ} → Outcome A → (A → Outcome B) → Outcome B
ok a >>= f = f a
exits >>= f = exits
undefined >>= f = undefined
hangs >>= f = hangs

abbrev pub ◌>>◌ {ℓ} : {B : Type ℓ} → Outcome (Unit {0}) → Outcome B → Outcome B
m >> k = m >>= λ _. k

-- `if (i == end()) exit(EXIT_FAILURE);`
abbrev pub or_exit {ℓ} : {A : Type ℓ} → Option A → Outcome A
or_exit none = exits
or_exit (some a) = ok a

-- A dereference that nothing guards.
abbrev pub or_undefined {ℓ} : {A : Type ℓ} → Option A → Outcome A
or_undefined none = undefined
or_undefined (some a) = ok a

-- An index that nothing guards.
abbrev pub in_bounds : Bool → Outcome (Unit {0})
in_bounds true = ok tt
in_bounds false = undefined

-- A property of the value, if there is one.
abbrev pub Ensures {ℓ κ} : {A : Type ℓ} → (A → Type κ) → Outcome A → Type κ
Ensures P (ok a) = P a
Ensures P exits = Unit
Ensures P undefined = Unit
Ensures P hangs = Unit

pub Ensures-bind {ℓ κ μ ν} :
    {A : Type ℓ} {B : Type κ} (Q : A → Type μ) (P : B → Type ν) (m : Outcome A) (f : A → Outcome B)
    → Ensures Q m
    → ((a : A) → Q a → Ensures P (f a))
    → Ensures P (m >>= f)
Ensures-bind Q P (ok a) f q k = k a q
Ensures-bind Q P exits f q k = tt
Ensures-bind Q P undefined f q k = tt
Ensures-bind Q P hangs f q k = tt

-- The same where nothing is known of the first value.
pub Ensures-after {ℓ κ μ} :
    {A : Type ℓ} {B : Type κ} (P : B → Type μ) (m : Outcome A) (f : A → Outcome B)
    → ((a : A) → Ensures P (f a))
    → Ensures P (m >>= f)
Ensures-after P (ok a) f k = k a
Ensures-after P exits f k = tt
Ensures-after P undefined f k = tt
Ensures-after P hangs f k = tt

pub Ensures-ok {ℓ κ} :
    {A : Type ℓ} (P : A → Type κ) (m : Outcome A) {a : A} → Ensures P m → m ≡ ok a → P a
Ensures-ok P m h e = rw e at h

pub Ensures-if {ℓ κ} :
    {A : Type ℓ} (P : A → Type κ) (c : Bool) (m n : Outcome A)
    → Ensures P m
    → Ensures P n
    → Ensures P (if c then m else n)
Ensures-if P true m n h k = h
Ensures-if P false m n h k = k

-- There is a value, and it has the property.
abbrev pub Returns {ℓ} : {A : Type ℓ} → (A → Type 0) → Outcome A → Type 0
Returns P (ok a) = P a
Returns P exits = ⊥
Returns P undefined = ⊥
Returns P hangs = ⊥

pub Returns-bind {ℓ κ} :
    {A : Type ℓ} {B : Type κ} (Q : A → Type 0) (P : B → Type 0) (m : Outcome A) (f : A → Outcome B)
    → Returns Q m
    → ((a : A) → Q a → Returns P (f a))
    → Returns P (m >>= f)
Returns-bind Q P (ok a) f q k = k a q
Returns-bind Q P exits f q k = absurd q
Returns-bind Q P undefined f q k = absurd q
Returns-bind Q P hangs f q k = absurd q

pub Returns-if {ℓ} :
    {A : Type ℓ} (P : A → Type 0) (c : Bool) (m n : Outcome A)
    → Returns P m
    → Returns P n
    → Returns P (if c then m else n)
Returns-if P true m n h k = h
Returns-if P false m n h k = k

pub Returns-ok {ℓ} :
    {A : Type ℓ} (P : A → Type 0) (m : Outcome A) → Returns P m → (a : A) × (m ≡ ok a) × P a
Returns-ok P (ok a) h = (a, refl, h)
Returns-ok P exits h = absurd h
Returns-ok P undefined h = absurd h
Returns-ok P hangs h = absurd h

pub Returns-map {ℓ} :
    {A : Type ℓ} {P Q : A → Type 0} (m : Outcome A)
    → ((a : A) → P a → Q a)
    → Returns P m
    → Returns Q m
Returns-map (ok a) f h = f a h
Returns-map exits f h = absurd h
Returns-map undefined f h = absurd h
Returns-map hangs f h = absurd h

-- What holds of every value holds of this one.
pub Ensures-always {ℓ κ} :
    {A : Type ℓ} {P : A → Type κ} (m : Outcome A) → ((a : A) → P a) → Ensures P m
Ensures-always (ok a) f = f a
Ensures-always exits f = tt
Ensures-always undefined f = tt
Ensures-always hangs f = tt
