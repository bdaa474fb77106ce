-- ===== src/Prelude/Map.antt =====
-- `std::unordered_map` with numbers for keys, as an association list. Nothing that is modelled
-- depends on the order of iteration.
use reliable_service_framewo.Prelude.Tests.{◌==◌, if◌then◌else◌}
use Prim.Native.Nat.{ℕ}
use mathlib.Core.Path.{◌≡◌, refl}
use mathlib.Core.Option.{Option, none, some}
use mathlib.Core.List.{List, [], ◌∷◌}
use native.Mathlib.Omega.{arith}

abbrev pub Map {ℓ} : Type ℓ → Type ℓ
Map V = List (ℕ × V)

module _ {ℓ} {V : Type ℓ} where
  -- `find`, where `none` is `end()`
  unfoldable pub lookup : ℕ → Map V → Option V
  lookup key [] = none
  lookup key ((head, value) ∷ rest) = if head == key then some value else lookup key rest

  -- `map[key] = value`; for a key that is present also the write through its iterator
  unfoldable pub insert : ℕ → V → Map V → Map V
  insert key value [] = (key, value) ∷ []
  insert key value ((head, old) ∷ rest) =
      if head == key then (key, value) ∷ rest else (head, old) ∷ insert key value rest

  pub lookup-insert :
      (key other : ℕ) (value : V) (entries : Map V)
      → lookup other (insert key value entries)
        ≡ (if key == other then some value else lookup other entries)
  unfolding lookup insert
  lookup-insert key other value [] = refl
  lookup-insert key other value ((head, old) ∷ rest) =
      ground (arith, lookup-insert key other value rest)

  pub lookup-insert_self :
      (key : ℕ) (value : V) (entries : Map V) → lookup key (insert key value entries) ≡ some value
  lookup-insert_self key value entries = ground (arith, lookup-insert key key value entries)

  pub insert_twice :
      (key : ℕ) (old new : V) (entries : Map V)
      → insert key new (insert key old entries) ≡ insert key new entries
  unfolding insert
  insert_twice key old new [] = ground arith
  insert_twice key old new ((head, value) ∷ rest) = ground (arith, insert_twice key old new rest)
