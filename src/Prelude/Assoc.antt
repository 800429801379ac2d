-- ===== src/Prelude/Assoc.antt =====
-- Go's `map[string]V` as an association list with its laws. Iteration visits the entries in the
-- list's order; Go leaves the order open.
use Prim.Native.String.{String}
use text.Mathlib.Text.{◌==◌}
use text.Mathlib.TextEquality.{eq_iff}
use mathlib.Core.Path.{◌≡◌, refl, subst}
use mathlib.Core.Logic.{inl, inr}
use mathlib.Core.List.{List, [], ◌∷◌}
use mathlib.Core.Option
use mathlib.Core.Option.{Option, none, some}
use native.Mathlib.Omega.{arith}
use goncordia.Prelude.Tests.{if◌then◌else◌, Bool-cases}
use goncordia.Prelude.Lists.{All}

abbrev pub Assoc {ℓ} : Type ℓ → Type ℓ
Assoc V = List (String × V)

module _ {ℓ} {V : Type ℓ} where
  -- value, ok := entries[key]
  unfoldable pub lookup : String → Assoc V → Option V
  lookup key [] = none
  lookup key ((at, value) ∷ entries) = if at == key then some value else lookup key entries

  -- entries[key] = value, which puts a new key last.
  unfoldable pub insert : String → V → Assoc V → Assoc V
  insert key value [] = (key, value) ∷ []
  insert key value ((at, old) ∷ entries) =
      let rest = insert key value entries in
      if at == key then (key, value) ∷ entries else (at, old) ∷ rest

  -- delete(entries, key)
  unfoldable pub erase : String → Assoc V → Assoc V
  erase key [] = []
  erase key ((at, value) ∷ entries) =
      let rest = erase key entries in if at == key then rest else (at, value) ∷ rest

  -- for k, v := range m { m[k] = f(v) }
  unfoldable pub map_values : (V → V) → Assoc V → Assoc V
  map_values f [] = []
  map_values f ((j, v) ∷ m) = (j, f v) ∷ map_values f m

  pub lookup-insert :
      (key other : String) (value : V) (entries : Assoc V)
      → lookup other (insert key value entries)
        ≡ (if key == other then some value else lookup other entries)
  unfolding insert lookup
  lookup-insert key other value [] = refl
  lookup-insert key other value ((at, old) ∷ entries) = ground (
    arith,
    lookup-insert key other value entries,
    eq_iff at key,
    eq_iff at other,
    eq_iff key other,
  )

  pub lookup-erase :
      (k j : String) (m : Assoc V) → lookup j (erase k m) ≡ (if k == j then none else lookup j m)
  unfolding lookup erase
  lookup-erase k j [] = ground arith
  lookup-erase k j ((i, v) ∷ m) =
      ground (arith, lookup-erase k j m, eq_iff i k, eq_iff i j, eq_iff k j)

  pub lookup-map_values :
      (f : V → V) (k : String) (m : Assoc V) → lookup k (map_values f m) ≡ Option.map f (lookup k m)
  unfolding lookup map_values
  lookup-map_values f k [] = refl
  lookup-map_values f k ((j, v) ∷ m) = ground (arith, lookup-map_values f k m)

  -- Every key stands once.
  abbrev pub Distinct : Assoc V → Type ℓ
  Distinct [] = Unit
  Distinct ((k, v) ∷ m) = (lookup k m ≡ none) × Distinct m

module _ {ℓ} {V : Type ℓ} where
  pub insert-Distinct : (k : String) (v : V) (m : Assoc V) → Distinct m → Distinct (insert k v m)
  unfolding insert lookup
  insert-Distinct k v [] d = (refl, tt)
  insert-Distinct k v ((j, w) ∷ m) d =
      ground (arith, eq_iff j k, eq_iff k j, insert-Distinct k v m, lookup-insert k j v m)

  pub erase-Distinct : (k : String) (m : Assoc V) → Distinct m → Distinct (erase k m)
  unfolding erase lookup
  erase-Distinct k [] d = tt
  erase-Distinct k ((j, w) ∷ m) d =
      ground (arith, eq_iff k j, erase-Distinct k m, lookup-erase k j m)

  pub map_values-Distinct : (f : V → V) (m : Assoc V) → Distinct m → Distinct (map_values f m)
  unfolding map_values lookup
  map_values-Distinct f [] d = tt
  map_values-Distinct f ((j, w) ∷ m) d =
      ground (arith, map_values-Distinct f m, lookup-map_values f j m)

module _ {ℓ κ} {V : Type ℓ} (P : String × V → Type κ) where
  -- An entry that is found is one of the entries.
  pub All-lookup : (k : String) (m : Assoc V) {v : V} → All P m → lookup k m ≡ some v → P (k, v)
  unfolding lookup
  All-lookup k [] h e = cc
  All-lookup k ((j, w) ∷ m) {v} h e = elim (Bool-cases (j == k)) [
    | inl same ↦
        let here : w ≡ v = ground arith in subst P (λ i. ((eq_iff j k).0 same i, here i)) h.0
    | inr other ↦ All-lookup k m h.1 (ground arith)
  ]

  pub All-insert : (k : String) (v : V) (m : Assoc V) → P (k, v) → All P m → All P (insert k v m)
  unfolding insert
  All-insert k v [] p h = (p, tt)
  All-insert k v ((j, w) ∷ m) p h = elim (Bool-cases (j == k)) [
    | inl e ↦ rw e (p, h.1)
    | inr e ↦ rw e (h.0, All-insert k v m p h.1)
  ]

  pub All-erase : (k : String) (m : Assoc V) → All P m → All P (erase k m)
  unfolding erase
  All-erase k [] h = tt
  All-erase k ((j, w) ∷ m) h = elim (Bool-cases (j == k)) [
    | inl e ↦ rw e (All-erase k m h.1)
    | inr e ↦ rw e (h.0, All-erase k m h.1)
  ]

  pub All-map_values :
      (f : V → V)
      → ((k : String) (v : V) → P (k, v) → P (k, f v))
      → (m : Assoc V) → All P m
      → All P (map_values f m)
  unfolding map_values
  All-map_values f g [] h = tt
  All-map_values f g ((j, w) ∷ m) h = (g j w h.0, All-map_values f g m h.1)
