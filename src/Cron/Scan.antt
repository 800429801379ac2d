-- ===== src/Cron/Scan.antt =====
-- cron.go, the scan of `tickDurable`: which occurrences it finds.
use goncordia.Prelude.{
  ℕ, zero, suc, ◌+◌, ◌≤◌, ◌<◌, ◌≡◌, refl, subst, inl, inr, ℤ, pos, ltb, Bool, true, false, not,
  ◌||◌, Bool-cases, Option-cases, Option, some, List, [], ◌∷◌, length, last_or, All, arith,
}
use goncordia.Time.{Time, is_zero}
use goncordia.Cron.{scan, reached}

-- Each occurrence is the schedule's next after the one before, which is earlier.
abbrev pub Follows : (Time → Time) → Time → List Time → Type 0
Follows next_of cursor [] = Unit
Follows next_of cursor (t ∷ ts) = (t ≡ next_of cursor) × (cursor < t) × Follows next_of t ts

-- What a scan from a cursor finds.
abbrev pub Found : (Time → Time) → Time → Time → List Time → Bool → Type 0
Found next_of now cursor due complete =
    Follows next_of cursor due
    × All (λ t. t ≤ now) due
    × (complete ≡ true → now < next_of (last_or cursor due))

module _ (next_of : Time → Time) (now : Time) where
  moved :
      (cursor : Time) {due due' : List Time} {complete complete' : Bool}
      → due ≡ due'
      → complete ≡ complete'
      → Found next_of now cursor due complete
      → Found next_of now cursor due' complete'
  moved cursor {due} {due'} {complete} d c f =
      subst (Found next_of now cursor due') c
        (subst (λ ts. Found next_of now cursor ts complete) d f)

  -- A scan finds occurrences that follow the cursor and each other by the schedule without a gap and
  -- are due; where it ends before an occurrence that is not due, it has found every due one.
  pub scan-Found :
      (bound : Option ℤ) (rounds n : ℕ) (cursor : Time) (due : List Time) (complete : Bool)
      → scan next_of now bound rounds n cursor ≡ some (due, complete)
      → Found next_of now cursor due complete
  unfolding scan
  scan-Found bound zero n cursor due complete e =
      let d : [] ≡ due = cc e in
      let c : false ≡ complete = cc e in moved cursor d c (tt, tt, λ h. cc h)
  scan-Found bound (suc rounds) n cursor due complete e =
      elim (Bool-cases (is_zero (next_of cursor) || not (ltb cursor (next_of cursor)))) [
        | inl stuck ↦ absurd (ground (arith, stuck))
        | inr moves ↦ elim (Bool-cases (ltb now (next_of cursor))) [
          | inl late ↦
              let d : [] ≡ due = ground (arith, moves, late) in
              let c : true ≡ complete = ground (arith, moves, late) in
              moved cursor d c (tt, tt, λ h. ground arith)
          | inr is_due ↦ elim (Bool-cases (reached bound (suc n))) [
            | inl full ↦
                let d : next_of cursor ∷ [] ≡ due = ground (arith, moves, is_due, full) in
                let c : false ≡ complete = ground (arith, moves, is_due, full) in
                moved cursor d c ((refl, ground arith, tt), (ground arith, tt), λ h. cc h)
            | inr room ↦
                elim (Option-cases (scan next_of now bound rounds (suc n) (next_of cursor))) [
                  | inl broken ↦ absurd (ground (arith, moves, is_due, room, broken))
                  | inr ((later, whole), more) ↦
                      let d : next_of cursor ∷ later ≡ due =
                        ground (arith, moves, is_due, room, more) in
                      let c : whole ≡ complete = ground (arith, moves, is_due, room, more) in
                      let (follows, in_time, ends) =
                        scan-Found bound rounds (suc n) (next_of cursor) later whole more in
                      moved cursor d c
                        ((refl, ground arith, follows), (ground arith, in_time), ends)
                ]
          ]
        ]
      ]

  -- A scan finds at most as many occurrences as one tick may catch up with.
  pub scan-bounded :
      (bound : ℕ) (rounds n : ℕ) (cursor : Time) (due : List Time) (complete : Bool)
      → n < bound
      → scan next_of now (some (pos bound)) rounds n cursor ≡ some (due, complete)
      → n + length due ≤ bound
  unfolding scan
  scan-bounded bound zero n cursor due complete room e =
      let same : [] ≡ due = cc e in subst (λ ts. n + length ts ≤ bound) same (ground arith)
  scan-bounded bound (suc rounds) n cursor due complete room e =
      elim (Bool-cases (is_zero (next_of cursor) || not (ltb cursor (next_of cursor)))) [
        | inl stuck ↦ absurd (ground (arith, stuck))
        | inr moves ↦ elim (Bool-cases (ltb now (next_of cursor))) [
          | inl late ↦
              let same : [] ≡ due = ground (arith, moves, late) in
              subst (λ ts. n + length ts ≤ bound) same (ground arith)
          | inr is_due ↦ elim (Bool-cases (reached (some (pos bound)) (suc n))) [
            | inl full ↦
                let same : next_of cursor ∷ [] ≡ due = ground (arith, moves, is_due, full) in
                subst (λ ts. n + length ts ≤ bound) same (ground arith)
            | inr more_room ↦
                elim (Option-cases
                  (scan next_of now (some (pos bound)) rounds (suc n) (next_of cursor))) [
                    | inl broken ↦ absurd (ground (arith, moves, is_due, more_room, broken))
                    | inr ((later, whole), more) ↦
                        let same : next_of cursor ∷ later ≡ due =
                          ground (arith, moves, is_due, more_room, more) in
                        subst (λ ts. n + length ts ≤ bound) same
                          (omega (
                            arith,
                            scan-bounded bound rounds (suc n) (next_of cursor) later whole
                                (ground arith) more,
                          ))
                  ]
          ]
        ]
      ]
