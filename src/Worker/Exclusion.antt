-- ===== src/Worker/Exclusion.antt =====
-- No key has more permits out than its limit, whatever the interleaving: an entry is not deleted while
-- someone refers to it, so that a key has one entry at a time.
use goncordia.Prelude.{
  ℕ, ◌≤◌, ◌≡◌, refl, inl, inr, String, ◌=s=◌, eq_iff, none, some, List, [], ◌∷◌, ◌++◌, All,
  Bool-cases, Option-cases, arith,
}
use goncordia.Prelude.Assoc.{Assoc, lookup}
use goncordia.Worker.Gates.{
  Phase, waiting, holding, leaving, System, Step, begin, acquire, give_up, release, leave,
  Reachable, start, next,
}
use goncordia.Worker.Gates.Counts.{refers, holds, holds_permit, total, IsCurrent}
use goncordia.Worker.Gates.Soundness.{
  IsSound, start-IsSound, front-IsSound, back-IsSound, take-IsSound, give-IsSound, enter-IsSound,
  drop-IsSound,
}

module _ (limit : String → ℕ) where
  step-IsSound : {x y : System} → Step limit x y → IsSound limit x.0 x.1 → IsSound limit y.0 y.1
  unfolding refers holds
  step-IsSound (begin {t} {others} key) ok = enter-IsSound limit t others key ok
  step-IsSound (acquire {t} before after key at room) ok =
      back-IsSound limit before after
        (take-IsSound limit t (before ++ after) key at room (front-IsSound limit before after ok))
  step-IsSound (give_up {t} before after key at) ok =
      let ok' = front-IsSound limit before after ok in
      drop-IsSound limit t (waiting key at) (before ++ after) key at (λ other. refl) (λ other. refl)
        ok'.current.0 ok'
  step-IsSound (release {t} before after key at) ok =
      back-IsSound limit before after
        (give-IsSound limit t (before ++ after) key at (front-IsSound limit before after ok))
  step-IsSound (leave {t} before after key at) ok =
      let ok' = front-IsSound limit before after ok in
      drop-IsSound limit t (leaving key at) (before ++ after) key at (λ other. refl) (λ other. refl)
        ok'.current.0 ok'

  Reachable-IsSound : {x : System} → Reachable limit x → IsSound limit x.0 x.1
  Reachable-IsSound start = start-IsSound limit
  Reachable-IsSound (next r s) = step-IsSound s (Reachable-IsSound r)

  -- The permits of a key are permits of its one entry.
  one-entry :
      (gates : Assoc ℕ) (key : String) (at : ℕ) (ps : List Phase)
      → lookup key gates ≡ some at
      → All (IsCurrent gates) ps
      → total (holds_permit key) ps ≤ total (holds at) ps
  unfolding total holds_permit holds
  one-entry gates key at [] known here = omega arith
  one-entry gates key at (waiting own a ∷ ps) known here =
      omega (arith, one-entry gates key at ps known here.1)
  one-entry gates key at (leaving own a ∷ ps) known here =
      omega (arith, one-entry gates key at ps known here.1)
  one-entry gates key at (holding own a ∷ ps) known here = elim (Bool-cases (own =s= key)) [
    | inr other ↦ ground (arith, other, one-entry gates key at ps known here.1)
    | inl same ↦
        let one : some a ≡ some at = cc (here.0, known, (eq_iff own key).0 same) in
        ground (arith, one, same, one-entry gates key at ps known here.1)
  ]

  no-entry :
      (gates : Assoc ℕ) (key : String) (ps : List Phase)
      → lookup key gates ≡ none
      → All (IsCurrent gates) ps
      → total (holds_permit key) ps ≡ 0
  unfolding total holds_permit
  no-entry gates key [] unknown here = refl
  no-entry gates key (waiting own a ∷ ps) unknown here =
      omega (arith, no-entry gates key ps unknown here.1)
  no-entry gates key (leaving own a ∷ ps) unknown here =
      omega (arith, no-entry gates key ps unknown here.1)
  no-entry gates key (holding own a ∷ ps) unknown here = elim (Bool-cases (own =s= key)) [
    | inr other ↦ ground (arith, other, no-entry gates key ps unknown here.1)
    | inl same ↦ cc (here.0, unknown, (eq_iff own key).0 same)
  ]

  -- In every state that a pool comes to by steps of its jobs in any order, the permits of a key that
  -- are out are at most the limit with which the key's entries are made.
  pub permits-bounded :
      (x : System) (key : String) → Reachable limit x → total (holds_permit key) x.1 ≤ limit key
  permits-bounded x key r =
      let ok = Reachable-IsSound r in
      elim (Option-cases (lookup key x.0.gates)) [
        | inl unknown ↦ omega (arith, no-entry x.0.gates key x.1 unknown ok.current)
        | inr (at, known) ↦ omega (
          arith,
          one-entry x.0.gates key at x.1 known ok.current,
          ok.held_count at,
          ok.within at,
          ok.capacity key at known,
        )
      ]
