-- ===== src/Prelude/Sort.antt =====
-- `sort.Slice` by a strict comparison, as an insertion sort: Go's sort is not stable, and where
-- the comparison is total on the items both give the one sorted list.
use Prim.Native.Nat.{ℕ, zero, suc}
use mathlib.Core.Path.{◌≡◌, refl, ap, ◌∙◌}
use mathlib.Core.Logic.{inl, inr}
use mathlib.Core.Bool.{Bool, true, false}
use mathlib.Core.List.{List, [], ◌∷◌, Perm}
use mathlib.Core.List.Perm
use goncordia.Prelude.Tests.{if◌then◌else◌, Bool-cases}
use goncordia.Prelude.Lists.{All, All-imp, All-All, All-and, All-drop, take, drop, length}
use native.Mathlib.Omega.{arith}

module _ {ℓ} {A : Type ℓ} (less : A → A → Bool) where
  unfoldable pub place : A → List A → List A
  place x [] = x ∷ []
  place x (y ∷ ys) = if less y x then y ∷ place x ys else x ∷ y ∷ ys

  unfoldable pub sort : List A → List A
  unfolding place
  sort [] = []
  sort (x ∷ xs) = place x (sort xs)

-- No item strictly precedes the one before it.
module _ {ℓ} {A : Type ℓ} (less : A → A → Bool) where
  abbrev pub Chain : List A → Type 0
  Chain [] = Unit
  Chain (x ∷ []) = Unit
  Chain (x ∷ y ∷ ys) = (less y x ≡ false) × Chain (y ∷ ys)

  abbrev pub IsAsymm : Type ℓ
  IsAsymm = (x y : A) → less x y ≡ true → less y x ≡ false

  place-Chain-cons :
      (asymm : IsAsymm) (x z : A) (ys : List A)
      → less x z ≡ false
      → Chain (z ∷ ys)
      → Chain (z ∷ place less x ys)
  unfolding place
  place-Chain-cons asymm x z [] hz c = (hz, tt)
  place-Chain-cons asymm x z (y ∷ ys) hz c = elim (Bool-cases (less y x)) [
    | inl e ↦ rw e (c.0, place-Chain-cons asymm x y ys (asymm y x e) c.1)
    | inr e ↦ rw e (hz, (e, c.1))
  ]

  place-Chain : (asymm : IsAsymm) (x : A) (ys : List A) → Chain ys → Chain (place less x ys)
  unfolding place
  place-Chain asymm x [] c = tt
  place-Chain asymm x (y ∷ ys) c = elim (Bool-cases (less y x)) [
    | inl e ↦ rw e (place-Chain-cons asymm x y ys (asymm y x e) c)
    | inr e ↦ rw e (e, c)
  ]

  -- The sorted list is in order.
  pub sort-Chain : IsAsymm → (xs : List A) → Chain (sort less xs)
  unfolding sort
  sort-Chain asymm [] = tt
  sort-Chain asymm (x ∷ xs) = place-Chain asymm x (sort less xs) (sort-Chain asymm xs)

  pub Chain-take : (n : ℕ) (xs : List A) → Chain xs → Chain (take n xs)
  Chain-take zero xs c = tt
  Chain-take (suc n) [] c = tt
  Chain-take (suc zero) (x ∷ []) c = tt
  Chain-take (suc (suc n)) (x ∷ []) c = tt
  Chain-take (suc zero) (x ∷ y ∷ ys) c = tt
  Chain-take (suc (suc n)) (x ∷ y ∷ ys) c = (c.0, Chain-take (suc n) (y ∷ ys) c.1)

  module _ {κ} (P : A → Type κ) where
    place-All : (x : A) (ys : List A) → P x → All P ys → All P (place less x ys)
    unfolding place
    place-All x [] p h = (p, tt)
    place-All x (y ∷ ys) p h = elim (Bool-cases (less y x)) [
      | inl e ↦ rw e (h.0, place-All x ys p h.1)
      | inr e ↦ rw e (p, h)
    ]

    pub sort-All : (xs : List A) → All P xs → All P (sort less xs)
    unfolding sort
    sort-All [] h = tt
    sort-All (x ∷ xs) h = place-All x (sort less xs) h.0 (sort-All xs h.1)

  place-perm : (x : A) (ys : List A) → Perm (place less x ys) (x ∷ ys)
  unfolding place
  place-perm x [] = Perm.refl (x ∷ [])
  place-perm x (y ∷ ys) = elim (Bool-cases (less y x)) [
    | inl e ↦ rw e (Perm.trans (Perm.cons y (place-perm x ys)) (Perm.swap x y ys))
    | inr e ↦ rw e (Perm.refl (x ∷ y ∷ ys))
  ]

  -- The sorted list has the items of the list, each as often.
  pub sort-perm : (xs : List A) → Perm (sort less xs) xs
  unfolding sort
  sort-perm [] = Perm.refl []
  sort-perm (x ∷ xs) = Perm.trans (place-perm x (sort less xs)) (Perm.cons x (sort-perm xs))

-- Where "does not precede" is transitive, no item precedes any before it.
module _ {ℓ} {A : Type ℓ} (less : A → A → Bool) where
  abbrev pub IsWeak : Type ℓ
  IsWeak = (x y z : A) → less y x ≡ false → less z y ≡ false → less z x ≡ false

  abbrev pub Ordered : List A → Type 0
  Ordered [] = Unit
  Ordered (x ∷ xs) = All (λ y. less y x ≡ false) xs × Ordered xs

  Ordered-Chain : IsWeak → (xs : List A) → Chain less xs → Ordered xs
  Ordered-Chain weak [] c = tt
  Ordered-Chain weak (x ∷ []) c = (tt, tt)
  Ordered-Chain weak (x ∷ y ∷ ys) c =
      let rest = Ordered-Chain weak (y ∷ ys) c.1 in
      ((c.0, All-imp (λ z h. weak x y z c.0 h) ys rest.0), rest)

  pub sort-Ordered : IsAsymm less → IsWeak → (xs : List A) → Ordered (sort less xs)
  sort-Ordered asymm weak xs = Ordered-Chain weak (sort less xs) (sort-Chain less asymm xs)

  -- What is left behind precedes nothing that is taken.
  pub Ordered-take-drop :
      (n : ℕ) (xs : List A)
      → Ordered xs
      → All (λ y. All (λ x. less y x ≡ false) (take n xs)) (drop n xs)
  Ordered-take-drop zero xs o = All-All (λ y. tt) xs
  Ordered-take-drop (suc n) [] o = tt
  Ordered-take-drop (suc n) (x ∷ xs) o =
      All-and _ _ (drop n xs) (All-drop (λ y. less y x ≡ false) n xs o.0)
        (Ordered-take-drop n xs o.1)

  module _ {κ} (P : A → Type κ) where
    place-All_inv : (x : A) (ys : List A) → All P (place less x ys) → P x × All P ys
    unfolding place
    place-All_inv x [] h = h
    place-All_inv x (y ∷ ys) h = elim (Bool-cases (less y x)) [
      | inl e ↦
          let h' : All P (y ∷ place less x ys) = rw e at h in
          let rest = place-All_inv x ys h'.1 in (rest.0, (h'.0, rest.1))
      | inr e ↦ let h' : All P (x ∷ y ∷ ys) = rw e at h in h'
    ]

    pub sort-All_inv : (xs : List A) → All P (sort less xs) → All P xs
    unfolding sort
    sort-All_inv [] h = tt
    sort-All_inv (x ∷ xs) h =
        let parts = place-All_inv x (sort less xs) h in (parts.0, sort-All_inv xs parts.1)

  place-length : (x : A) (ys : List A) → length (place less x ys) ≡ suc (length ys)
  unfolding place
  place-length x [] = refl
  place-length x (y ∷ ys) = ground (arith, place-length x ys)

  pub length-sort : (xs : List A) → length (sort less xs) ≡ length xs
  unfolding sort
  length-sort [] = refl
  length-sort (x ∷ xs) = place-length x (sort less xs) ∙ ap suc (length-sort xs)
