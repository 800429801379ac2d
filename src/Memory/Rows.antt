-- ===== src/Memory/Rows.antt =====
-- How a call may change the map of jobs, key by key: a row stays under its key and changes by `R`,
-- or it is deleted, and no row appears.
use goncordia.Prelude.{
  ◌≡◌, refl, subst, String, ◌=s=◌, eq_iff, Bool-cases, Option, some, none, inl, inr, ap, ◌∙◌, sym,
}
use goncordia.Prelude.Assoc.{
  Assoc, lookup, insert, erase, map_values, lookup-insert, lookup-erase, lookup-map_values,
}
use goncordia.Driver.{JobRow}
use mathlib.Core.Option

module _ (R : JobRow → JobRow → Type 0) where
  abbrev pub Changed : Option JobRow → Option JobRow → Type 0
  Changed none none = Unit
  Changed none (some b) = ⊥
  Changed (some a) none = Unit
  Changed (some a) (some b) = R a b

  abbrev pub Rows : Assoc JobRow → Assoc JobRow → Type 0
  Rows m m' = (k : String) → Changed (lookup k m) (lookup k m')

  module _ (R-refl : (a : JobRow) → R a a) where
    Changed-refl : (o : Option JobRow) → Changed o o
    Changed-refl none = tt
    Changed-refl (some a) = R-refl a

    pub Rows-refl : (m : Assoc JobRow) → Rows m m
    Rows-refl m k = Changed-refl (lookup k m)

    pub Rows-insert :
        (m : Assoc JobRow) (k : String) (a b : JobRow)
        → lookup k m ≡ some a
        → R a b
        → Rows m (insert k b m)
    Rows-insert m k a b e r j = rw lookup-insert (elim (Bool-cases (k =s= j)) [
      | inl same ↦ rw (same, sym (ap (λ i. lookup i m) ((eq_iff k j).0 same)) ∙ e) r
      | inr other ↦ rw other (Changed-refl (lookup j m))
    ])

    pub Rows-erase : (m : Assoc JobRow) (k : String) → Rows m (erase k m)
    Rows-erase m k j = rw lookup-erase (elim (Bool-cases (k =s= j)) [
      | inl same ↦ rw same (elim (lookup j m) as (λ o. Changed o none) [ none ↦ tt | some a ↦ tt ])
      | inr other ↦ rw other (Changed-refl (lookup j m))
    ])

  pub Rows-map_values :
      (f : JobRow → JobRow) (m : Assoc JobRow)
      → ((a : JobRow) → R a (f a))
      → Rows m (map_values f m)
  Rows-map_values f m r j =
      rw lookup-map_values
        (elim (lookup j m) as (λ o. Changed o (Option.map f o)) [ none ↦ tt | some a ↦ r a ])

-- A row that is there afterwards was there before.
pub Rows-back :
    (R : JobRow → JobRow → Type 0) (m m' : Assoc JobRow) (k : String) (b : JobRow)
    → Rows R m m'
    → lookup k m' ≡ some b
    → (a : JobRow) × (lookup k m ≡ some a) × R a b
Rows-back R m m' k b rows e = back (lookup k m) refl (subst (Changed R (lookup k m)) e (rows k))
  where
    back :
        (o : Option JobRow)
        → lookup k m ≡ o
        → Changed R o (some b)
        → (a : JobRow) × (lookup k m ≡ some a) × R a b
    back none known c = elim c [ ]
    back (some a) known c = (a, known, c)

Changed-imp :
    {R S : JobRow → JobRow → Type 0}
    → ((a b : JobRow) → R a b → S a b)
    → (o o' : Option JobRow) → Changed R o o'
    → Changed S o o'
Changed-imp f none none c = c
Changed-imp f none (some b) c = c
Changed-imp f (some a) none c = c
Changed-imp f (some a) (some b) c = f a b c

pub Rows-imp :
    (R S : JobRow → JobRow → Type 0) (m m' : Assoc JobRow)
    → ((a b : JobRow) → R a b → S a b)
    → Rows R m m'
    → Rows S m m'
Rows-imp R S m m' f rows k = Changed-imp f (lookup k m) (lookup k m') (rows k)
