-- ===== src/Prelude/Entries.antt =====
-- Filters, sorts and prefixes of a map's entries.
use Prim.Native.Nat.{ℕ, zero, suc}
use Prim.Native.String.{String}
use text.Mathlib.Text.{◌==◌}
use text.Mathlib.TextEquality.{eq_iff}
use mathlib.Core.Path.{◌≡◌, refl, ap, ◌∙◌, subst}
use mathlib.Core.Logic.{inl, inr, ◌≢◌}
use mathlib.Core.Bool.{Bool, true, false}
use mathlib.Core.List.{[], ◌∷◌, ◌++◌}
use mathlib.Core.Option.{none, some}
use native.Mathlib.Omega.{arith}
use goncordia.Prelude.Tests.{Bool-cases}
use goncordia.Prelude.Lists.{All, All-imp, All-append, keep, take, drop, take-append-drop}
use goncordia.Prelude.Assoc.{Assoc, lookup, insert, Distinct, lookup-insert, All-lookup}
use goncordia.Prelude.Sort.{
  place, sort, IsAsymm, IsWeak, sort-All_inv, sort-Ordered, Ordered-take-drop,
}

module _ {ℓ} {V : Type ℓ} where
  -- The map has this entry.
  abbrev pub Holds : Assoc V → String × V → Type ℓ
  Holds m e = lookup e.0 m ≡ some e.1

  Holds-cons :
      (k : String) (v : V) (m : Assoc V) (e : String × V)
      → lookup k m ≡ none
      → Holds m e
      → Holds ((k, v) ∷ m) e
  unfolding lookup
  Holds-cons k v m (j, w) fresh h = ground (arith, eq_iff k j)

  -- A map has each of its entries.
  pub Holds-self : (m : Assoc V) → Distinct m → All (Holds m) m
  unfolding lookup
  Holds-self [] d = tt
  Holds-self ((k, v) ∷ m) d =
      (ground (arith, eq_iff k k), All-imp (λ e h. Holds-cons k v m e d.0 h) m (Holds-self m d.1))

  -- The entries under other keys outlast a write.
  pub Holds-insert :
      (k : String) (v : V) (m es : Assoc V)
      → lookup k es ≡ none
      → All (Holds m) es
      → All (Holds (insert k v m)) es
  unfolding lookup
  Holds-insert k v m [] absent h = tt
  Holds-insert k v m ((j, w) ∷ es) absent h = (
    ground (arith, eq_iff k j, eq_iff j k, lookup-insert k j v m),
    Holds-insert k v m es (ground arith) h.1,
  )

  module _ (p : String × V → Bool) where
    lookup-keep-none : (k : String) (m : Assoc V) → lookup k m ≡ none → lookup k (keep p m) ≡ none
    unfolding lookup
    lookup-keep-none k [] h = refl
    lookup-keep-none k ((j, w) ∷ m) h = ground (arith, lookup-keep-none k m)

    pub keep-Distinct : (m : Assoc V) → Distinct m → Distinct (keep p m)
    keep-Distinct [] d = tt
    keep-Distinct ((k, v) ∷ m) d = elim (Bool-cases (p (k, v))) [
      | inl e ↦ rw e (lookup-keep-none k m d.0, keep-Distinct m d.1)
      | inr e ↦ rw e (keep-Distinct m d.1)
    ]

    pub keep-Holds :
        (k : String) (v : V) (m : Assoc V)
        → Distinct m
        → lookup k m ≡ some v
        → p (k, v) ≡ true
        → lookup k (keep p m) ≡ some v
    unfolding lookup
    keep-Holds k v [] d h e = cc
    keep-Holds k v ((j, w) ∷ m) d h e = elim (Bool-cases (j == k)) [
      | inl same ↦
          let at : (j, w) ≡ (k, v) = λ i. ((eq_iff j k).0 same i, found same i) in
          let passes : p (j, w) ≡ true = ap p at ∙ e in rw passes (rw same (ap some (found same)))
      | inr other ↦ ground (arith, keep-Holds k v m)
    ]
      where
        found : (j == k) ≡ true → w ≡ v
        found same = ground arith

  module _ (less : String × V → String × V → Bool) where
    lookup-place-none :
        (k : String) (e : String × V) (m : Assoc V)
        → (e.0 == k) ≡ false
        → lookup k m ≡ none
        → lookup k (place less e m) ≡ none
    unfolding lookup place
    lookup-place-none k (j, v) [] ne h = rw ne
    lookup-place-none k (j, v) ((i, w) ∷ m) ne h = ground (arith, lookup-place-none k (j, v) m ne)

    lookup-sort-none :
        (k : String) (m : Assoc V) → lookup k m ≡ none → lookup k (sort less m) ≡ none
    unfolding lookup sort
    lookup-sort-none k [] h = refl
    lookup-sort-none k ((j, v) ∷ m) h =
        lookup-place-none k (j, v) (sort less m) (ground arith)
          (lookup-sort-none k m (ground arith))

    place-Distinct :
        (e : String × V) (m : Assoc V)
        → lookup e.0 m ≡ none
        → Distinct m
        → Distinct (place less e m)
    unfolding lookup place
    place-Distinct (k, v) [] fresh d = (refl, tt)
    place-Distinct (k, v) ((j, w) ∷ m) fresh d = elim (Bool-cases (less (j, w) (k, v))) [
      | inl e ↦ rw e (
        lookup-place-none j (k, v) m (ground (arith, eq_iff j k, eq_iff k j)) d.0,
        place-Distinct (k, v) m (ground arith) d.1,
      )
      | inr e ↦ rw e (fresh, d)
    ]

    pub sort-Distinct : (m : Assoc V) → Distinct m → Distinct (sort less m)
    unfolding sort
    sort-Distinct [] d = tt
    sort-Distinct ((k, v) ∷ m) d =
        place-Distinct (k, v) (sort less m) (lookup-sort-none k m d.0) (sort-Distinct m d.1)

  lookup-take-none :
      (k : String) (n : ℕ) (m : Assoc V) → lookup k m ≡ none → lookup k (take n m) ≡ none
  unfolding lookup
  lookup-take-none k zero m h = refl
  lookup-take-none k (suc n) [] h = refl
  lookup-take-none k (suc n) ((j, v) ∷ m) h = ground (arith, lookup-take-none k n m)

  pub take-Distinct : (n : ℕ) (m : Assoc V) → Distinct m → Distinct (take n m)
  take-Distinct zero m d = tt
  take-Distinct (suc n) [] d = tt
  take-Distinct (suc n) ((k, v) ∷ m) d = (lookup-take-none k n m d.0, take-Distinct n m d.1)

  present-cons :
      (e e' : String × V) (m : Assoc V) → lookup e'.0 m ≢ none → lookup e'.0 (e ∷ m) ≢ none
  unfolding lookup
  present-cons (k, v) (j, w) m h = ground (arith, eq_iff k j)

  present_self : (m : Assoc V) → All (λ e. lookup e.0 m ≢ none) m
  unfolding lookup
  present_self [] = tt
  present_self ((k, v) ∷ m) =
      (ground (arith, eq_iff k k), All-imp (λ e h. present-cons (k, v) e m h) m (present_self m))

  -- An entry that the first of a sorted map leave out precedes none of them.
  pub take-sort_first :
      (less : String × V → String × V → Bool)
      → IsAsymm less
      → IsWeak less
      → (n : ℕ) (m : Assoc V) (k : String) (v : V) → lookup k m ≡ some v
      → lookup k (take n (sort less m)) ≡ none
      → All (λ c. less (k, v) c ≡ false) (take n (sort less m))
  take-sort_first less asymm weak n m k v known left =
      All-lookup Left k m (sort-All_inv less Left m (subst (All Left) split all_left)) known left
    where
      sorted : Assoc V
      sorted = sort less m

      Left : String × V → Type ℓ
      Left e = lookup e.0 (take n sorted) ≡ none → All (λ c. less e c ≡ false) (take n sorted)

      split : take n sorted ++ drop n sorted ≡ sorted
      split = take-append-drop n sorted

      all_left : All Left (take n sorted ++ drop n sorted)
      all_left =
          All-append Left (take n sorted) (drop n sorted)
            (All-imp (λ e h none_left. absurd (h none_left)) (take n sorted)
              (present_self (take n sorted)))
            (All-imp (λ e h _. h) (drop n sorted)
              (Ordered-take-drop less n sorted (sort-Ordered less asymm weak m)))
