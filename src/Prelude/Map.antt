-- ===== src/Prelude/Map.antt =====
-- Go's maps as association lists: an assignment replaces the entry, or adds one at the end.
-- The order of the list stands for the order in which the runtime happens to iterate.
use mathlib.Core.Path.{◌≡◌, refl}
use mathlib.Core.Option.{Option, none, some}
use mathlib.Core.List.{List, [], ◌∷◌}
use native.Mathlib.Omega.{arith}
use heuristic.Prelude.Tests.{if◌then◌else◌}
use heuristic.Prelude.Equality.{Eq, ◌==◌}

module _ {ℓ κ} {K : Type ℓ} {V : Type κ} ⦃e : Eq K⦄ where
  -- `delete(entries, key)`
  unfoldable pub erase : K → List (K × V) → List (K × V)
  erase key [] = []
  erase key (entry ∷ entries) =
      let rest = erase key entries in if entry.0 == key then rest else entry ∷ rest

  -- `entries[key] = value`
  unfoldable pub insert : K → V → List (K × V) → List (K × V)
  insert key value [] = (key, value) ∷ []
  insert key value (entry ∷ entries) =
      let rest = insert key value entries in
      if entry.0 == key then (key, value) ∷ entries else entry ∷ rest

  -- `value, ok := entries[key]`
  unfoldable pub lookup : K → List (K × V) → Option V
  lookup key [] = none
  lookup key (entry ∷ entries) =
      let rest = lookup key entries in if entry.0 == key then some entry.1 else rest

  pub lookup-nil : (key : K) → lookup key [] ≡ none
  unfolding lookup
  lookup-nil key = refl

  pub lookup-erase :
      (key other : K) (entries : List (K × V))
      → lookup other (erase key entries) ≡ (if key == other then none else lookup other entries)
  unfolding erase lookup
  lookup-erase key other [] = ground arith
  lookup-erase key other (entry ∷ entries) = ground (
    arith,
    lookup-erase key other entries,
    e.same_iff entry.0 key,
    e.same_iff entry.0 other,
    e.same_iff key other,
  )

  pub lookup-insert :
      (key other : K) (value : V) (entries : List (K × V))
      → lookup other (insert key value entries)
        ≡ (if key == other then some value else lookup other entries)
  unfolding insert lookup
  lookup-insert key other value [] = refl
  lookup-insert key other value (entry ∷ entries) = ground (
    arith,
    e.same_iff entry.0 other,
    e.same_iff key other,
    lookup-insert key other value entries,
    e.same_iff entry.0 key,
  )

  pub erase-insert :
      (key : K) (value : V) (entries : List (K × V))
      → erase key (insert key value entries) ≡ erase key entries
  unfolding erase insert
  erase-insert key value [] = ground (arith, e.same_iff key key)
  erase-insert key value (entry ∷ entries) =
      ground (arith, erase-insert key value entries, e.same_iff key key)

  pub insert-insert :
      (key : K) (value other : V) (entries : List (K × V))
      → insert key other (insert key value entries) ≡ insert key other entries
  unfolding insert
  insert-insert key value other [] = ground (arith, e.same_iff key key)
  insert-insert key value other (entry ∷ entries) =
      ground (arith, insert-insert key value other entries, e.same_iff key key)
