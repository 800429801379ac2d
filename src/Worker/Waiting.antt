-- ===== src/Worker/Waiting.antt =====
-- The promises of the wait for a rate permit.
use goncordia.Prelude.{
  ℕ, ◌≡◌, refl, sym, ap, ◌∙◌, inl, inr, ◌⊎◌, true, false, ltb, if◌then◌else◌, Option, none, some,
  List, [], ◌∷◌, Bool-cases, Option-cases, All,
}
use goncordia.Time.{Time}
use goncordia.Driver.{JobRow}
use goncordia.Worker.Config.{is_local}
use goncordia.Worker.Limits.{Arithmetic}
use goncordia.Worker.LocalRate.{
  Rates, touch, rate_at, rule_delay, KeyedRule, local_rate_delay, Reservation, rollback,
  reserve_local_rate_limits,
}
use goncordia.Worker.Reserve.{SameRates, touch-SameRates, after_rollback, reserve-rollback}
use goncordia.Worker.Permit.{
  Backend, Round, keyed, try_global_rate_limits, Verdict, undecided, granted, refused, verdict,
  permit_loop,
}

pub local_rate_delay-SameRates :
    (rules : List KeyedRule) (now : Time) (delay : ℕ) (rates : Rates)
    → SameRates (local_rate_delay rules now delay rates).0 rates
unfolding local_rate_delay
local_rate_delay-SameRates [] now delay rates key = refl
local_rate_delay-SameRates ((at, rule) ∷ rules) now delay rates key =
    elim (Bool-cases (is_local rule.scope)) [
      | inr elsewhere ↦
          rw (elsewhere, local_rate_delay) (local_rate_delay-SameRates rules now delay rates key)
      | inl here ↦
          let made = touch at rates in
          let asked = rule_delay rule now (rate_at at made) in
          rw (here, local_rate_delay)
            (local_rate_delay-SameRates rules now (if ltb delay asked then asked else delay) made
                key
              ∙ touch-SameRates at rates key)
    ]

after_rollback-some :
    (x : Rates × Option (List Reservation)) {rs : List Reservation}
    → x.1 ≡ some rs
    → after_rollback x ≡ rollback rs x.0
after_rollback-some x e = ap (λ o. after_rollback (x.0, o)) e

after_rollback-none : (x : Rates × Option (List Reservation)) → x.1 ≡ none → after_rollback x ≡ x.0
after_rollback-none x e = ap (λ o. after_rollback (x.0, o)) e

Verdict-cases :
    (v : Verdict) → (v ≡ undecided) ⊎ (v ≡ granted) ⊎ ((delay : ℕ) × (v ≡ refused delay))
Verdict-cases undecided = inl refl
Verdict-cases granted = inr (inl refl)
Verdict-cases (refused delay) = inr (inr (delay, refl))

module _ {S : Type 0} (arithmetic : Arithmetic) (backend : Backend S) (row : JobRow)
    (poll : ℕ) where
  -- No other job of the pool counts a start around the pass or during it.
  abbrev pub IsQuiet : Round S → Type 0
  IsQuiet r =
      ((state : Rates × S) → (r.before state).0 ≡ state.0)
      × ((rates : Rates) → r.during rates ≡ rates)

  -- Where a job stops to wait for its permit, because its context is done or the pool shuts down, and
  -- no other job of the pool counts a start around its passes or during them, the starts that the
  -- pool's local rules have counted are those from before. Of the permits that global rules gave, it
  -- states nothing.
  pub permit_loop-refused :
      (rounds : List (Round S)) (state : Rates × S)
      → All IsQuiet rounds
      → (permit_loop arithmetic backend row poll rounds state).1 ≡ some false
      → SameRates (permit_loop arithmetic backend row poll rounds state).0.0 state.0
  unfolding permit_loop
  permit_loop-refused [] state quiet e key = cc
  permit_loop-refused (r ∷ rounds) state quiet e key =
      let rates = (r.before state).0 in
      let s = (r.before state).1 in
      let rules = keyed arithmetic row r.rules in
      let touched = (local_rate_delay rules r.now 0 rates).0 in
      let start : rate_at key touched ≡ rate_at key state.0 =
        local_rate_delay-SameRates rules r.now 0 rates key ∙ ap (rate_at key) (quiet.0.0 state) in
      let reserved = (reserve_local_rate_limits rules r.now [] touched).0 in
      elim (Bool-cases (ltb 0 (local_rate_delay rules r.now 0 rates).1)) [
        | inl delayed ↦ elim (Bool-cases (r.waits (local_rate_delay rules r.now 0 rates).1)) [
          | inl waited ↦
              rw (delayed, permit_loop, waited)
                (permit_loop-refused rounds (touched, s) quiet.1
                    (sym (rw (delayed, permit_loop, waited) refl) ∙ e) key
                  ∙ start)
          | inr stopped ↦ rw (delayed, permit_loop, stopped) start
        ]
        | inr free ↦ elim (Option-cases (reserve_local_rate_limits rules r.now [] touched).1) [
          | inl full ↦
              let back : rate_at key reserved ≡ rate_at key touched =
                ap (rate_at key) (
                  sym (after_rollback-none (reserve_local_rate_limits rules r.now [] touched) full))
                ∙ reserve-rollback rules r.now touched key in
              rw (free, permit_loop, full)
                (permit_loop-refused rounds (reserved, s) quiet.1
                    (sym (rw (free, permit_loop, full) refl) ∙ e) key
                  ∙ back
                  ∙ start)
          | inr (rs, made) ↦
              let (s', outcome) = try_global_rate_limits arithmetic backend row r.rules r.asked s in
              let rolled = rollback rs (r.during reserved) in
              let back : rate_at key rolled ≡ rate_at key touched =
                ap (λ x. rate_at key (rollback rs x)) (quiet.0.1 reserved)
                ∙ ap (rate_at key) (
                    sym
                      (after_rollback-some (reserve_local_rate_limits rules r.now [] touched) made))
                ∙ reserve-rollback rules r.now touched key in
              elim (Verdict-cases (verdict poll r.asked outcome)) [
                | inl unclear ↦
                    let ended : (permit_loop arithmetic backend row poll (r ∷ rounds) state).1
                        ≡ none =
                      rw (free, permit_loop, made, unclear) refl in
                    cc (ended, e)
                | inr (inl allowed) ↦
                    let ended : (permit_loop arithmetic backend row poll (r ∷ rounds) state).1
                        ≡ some true =
                      rw (free, permit_loop, made, allowed) refl in
                    cc (ended, e)
                | inr (inr (delay, refusal)) ↦ elim (Bool-cases (r.waits delay)) [
                  | inl waited ↦
                      rw (free, permit_loop, made, refusal, waited)
                        (permit_loop-refused rounds (rolled, s') quiet.1
                            (sym (rw (free, permit_loop, made, refusal, waited) refl) ∙ e) key
                          ∙ back
                          ∙ start)
                  | inr stopped ↦ rw (free, permit_loop, made, refusal, stopped) (back ∙ start)
                ]
              ]
        ]
      ]
