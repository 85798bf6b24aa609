-- ===== src/Prelude/Maps.antt =====
-- Go's `map[string]V` as an association list with one entry for a key. Assignment keeps the place
-- of a key that is there; the program never depends on the order of a map's entries.
use watermill.Prelude.Tests.{if◌then◌else◌}
use watermill.Prelude.Lists.{length}
use Prim.Native.Nat.{◌+◌}
use Prim.Native.String.{String}
use mathlib.Core.Path.{◌≡◌, refl}
use mathlib.Core.Option.{Option, none, some}
use mathlib.Core.List.{List, [], ◌∷◌}
use native.Mathlib.Omega.{arith}
use text.Mathlib.Text.{◌==◌}
use text.Mathlib.TextEquality.{eq_iff}

abbrev pub Map {ℓ} : Type ℓ → Type ℓ
Map V = List (String × V)

module _ {ℓ} {V : Type ℓ} where
  -- m[k], with its second result
  unfoldable pub lookup : String → Map V → Option V
  lookup key [] = none
  lookup key ((first, value) ∷ rest) = if first == key then some value else lookup key rest

  -- m[k] = v
  unfoldable pub insert : String → V → Map V → Map V
  insert key new [] = (key, new) ∷ []
  insert key new ((first, value) ∷ rest) =
      if first == key then (first, new) ∷ rest else (first, value) ∷ insert key new rest

  -- delete(m, k)
  unfoldable pub delete : String → Map V → Map V
  delete key [] = []
  delete key ((first, value) ∷ rest) =
      if first == key then rest else (first, value) ∷ delete key rest

  -- what a reader of the map finds after an assignment
  pub lookup-insert :
      (written read : String) (new : V) (m : Map V)
      → lookup read (insert written new m) ≡ (if written == read then some new else lookup read m)
  unfolding lookup insert
  lookup-insert written read new [] = refl
  lookup-insert written read new ((first, value) ∷ rest) =
      let ih = lookup-insert written read new rest in
      ground (arith, ih, eq_iff first written, eq_iff first read, eq_iff written read)

  -- No key stands twice.
  abbrev pub HasUniqueKeys : Map V → Type ℓ
  HasUniqueKeys [] = Unit
  HasUniqueKeys ((k, v) ∷ m) = (lookup k m ≡ none) × HasUniqueKeys m

  pub insert-HasUniqueKeys :
      (k : String) (v : V) (m : Map V) → HasUniqueKeys m → HasUniqueKeys (insert k v m)
  unfolding insert lookup
  insert-HasUniqueKeys k v [] u = (refl, tt)
  insert-HasUniqueKeys k v ((i, w) ∷ m) (fresh, u) =
      ground (arith, eq_iff i k, eq_iff k i, lookup-insert k i v m, insert-HasUniqueKeys k v m u)

  pub lookup-delete :
      (k j : String) (m : Map V)
      → HasUniqueKeys m
      → lookup j (delete k m) ≡ (if k == j then none else lookup j m)
  unfolding delete lookup
  lookup-delete k j [] u = ground arith
  lookup-delete k j ((i, w) ∷ m) (fresh, u) =
      ground (arith, eq_iff k j, eq_iff i k, eq_iff i j, lookup-delete k j m u)

  pub delete-HasUniqueKeys : (k : String) (m : Map V) → HasUniqueKeys m → HasUniqueKeys (delete k m)
  unfolding delete lookup
  delete-HasUniqueKeys k [] u = tt
  delete-HasUniqueKeys k ((i, w) ∷ m) (fresh, u) =
      ground (arith, eq_iff k i, lookup-delete k i m u, delete-HasUniqueKeys k m u)

  pub length-insert :
      (k : String) (v : V) (m : Map V)
      → length (insert k v m) ≡ (elim (lookup k m) [ none ↦ length m + 1 | some _ ↦ length m ])
  unfolding insert lookup
  length-insert k v [] = refl
  length-insert k v ((i, w) ∷ m) = ground (arith, length-insert k v m)

  pub length-delete :
      (k : String) (v : V) (m : Map V) → lookup k m ≡ some v → length (delete k m) + 1 ≡ length m
  unfolding delete lookup
  length-delete k v [] h = cc
  length-delete k v ((i, w) ∷ m) h = ground (arith, length-delete k v m)

pub ruleset map_laws = (lookup-insert, insert-HasUniqueKeys)
