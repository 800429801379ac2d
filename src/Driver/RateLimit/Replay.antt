-- ===== src/Driver/RateLimit/Replay.antt =====
-- driver/rate_limit.go, GCRA: a request's loop is a run of the accesses that bound the permits.
use goncordia.Prelude.{
  ℕ, zero, suc, ◌-◌, ◌≤◌, ◌≡◌, refl, sym, ap, ◌∙◌, inl, inr, String, true, false, ltb, Bool-cases,
  List, [], ◌∷◌, ◌++◌, All, All-append, arith,
}
use goncordia.Time.{Time}
use goncordia.Driver.{Result-cases}
use goncordia.Driver.RateLimit.{CursorStore, World, gcra_next, gcra_loop}
use goncordia.Driver.RateLimit.Gcra.{Access, create, write, Within, access}

module _ {S : Type 0} (db : CursorStore S) (key : String) (interval tolerance : ℕ) where
  -- The store after one access and another.
  unfoldable pub replay : S → List (Access db key interval tolerance) → S
  replay s [] = s
  replay s (a ∷ rest) = replay (access db key interval tolerance s a).0 rest

  replay-append :
      (s : S) (xs ys : List (Access db key interval tolerance))
      → replay s (xs ++ ys) ≡ replay (replay s xs) ys
  unfolding replay
  replay-append s [] ys = refl
  replay-append s (x ∷ xs) ys = replay-append (access db key interval tolerance s x).0 xs ys

  -- The second store is the result of accesses that keep the rule.
  abbrev pub IsRun : Time → Time → S → S → Type 0
  IsRun start end s s' =
      (accesses : List (Access db key interval tolerance)) × All
        (Within db key interval tolerance start end) accesses
      × (s' ≡ replay s accesses)

  module _ (world : World S) (moves : ℕ → List (Access db key interval tolerance))
      (start end now : Time) (others : (n : ℕ) (s : S) → world.others n s ≡ replay s (moves n))
      (kept : (n : ℕ) → All (Within db key interval tolerance start end) (moves n))
      (later : start ≤ now) (sooner : now ≤ end) where
    -- A round that writes: its read, what the others do, its write, and what follows.
    round-IsRun :
        (round : ℕ) (s s' : S) (at : Time)
        → at - tolerance ≤ now
        → let s1 = (access db key interval tolerance s (create now)).0 in
          let s2 = (access db key interval tolerance (world.others round s1) (write now at)).0 in
          IsRun start end s2 s' → IsRun start end s s'
    unfolding replay
    round-IsRun round s s' at allowed (rest, rest_kept, e) = (
      create now ∷ (moves round ++ (write now at ∷ rest)),
      (
        (later, sooner),
        All-append (Within db key interval tolerance start end) (moves round) (write now at ∷ rest)
            (kept round) ((later, sooner, allowed), rest_kept),
      ),
      e
          ∙ ap (λ t. replay (access db key interval tolerance t (write now at)).0 rest)
              (others round (access db key interval tolerance s (create now)).0)
          ∙ sym (
              replay-append (access db key interval tolerance s (create now)).0 (moves round)
                (write now at ∷ rest)),
    )

    -- What a GCRA request does to the store, together with what the other processes do meanwhile, is
    -- a run of reads and allowed writes, where the others' doings are such runs.
    pub gcra_loop-IsRun :
        (fuel : ℕ) (s : S)
        → IsRun start end s (gcra_loop db world fuel key now interval tolerance s).0
    unfolding gcra_loop replay access
    gcra_loop-IsRun zero s = ([], tt, refl)
    gcra_loop-IsRun (suc round) s =
        elim (Result-cases (db.get_or_create s (record { id = key; initial_at = now })).1) [
          | inl (e, r) ↦ rw (r, gcra_loop) (create now ∷ [], ((later, sooner), tt), refl)
          | inr (current, r) ↦ elim (Bool-cases (ltb now (current.at - tolerance))) [
            | inl early ↦ rw (r, gcra_loop, early) (create now ∷ [], ((later, sooner), tt), refl)
            | inr due ↦
                let s1 = (db.get_or_create s (record { id = key; initial_at = now })).0 in
                let written = db.advance (world.others round s1) (record {
                  id = key;
                  expected = current.at;
                  next = gcra_next interval now current.at;
                }) in
                elim (Result-cases written.1) [
                  | inl (e, w) ↦
                      rw (r, gcra_loop, due, w)
                        (round-IsRun round s written.0 current.at (ground arith) ([], tt, refl))
                  | inr (true, w) ↦
                      rw (r, gcra_loop, due, w)
                        (round-IsRun round s written.0 current.at (ground arith) ([], tt, refl))
                  | inr (false, w) ↦ elim (Bool-cases (world.is_done round)) [
                    | inl over ↦
                        rw (r, gcra_loop, due, w, over)
                          (round-IsRun round s written.0 current.at (ground arith) ([], tt, refl))
                    | inr going ↦
                        rw (r, gcra_loop, due, w, going)
                          (round-IsRun round s _ current.at (ground arith)
                            (gcra_loop-IsRun round written.0))
                  ]
                ]
          ]
        ]
