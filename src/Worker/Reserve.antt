-- ===== src/Worker/Reserve.antt =====
-- A refused reservation, and one that is rolled back, leave the counted starts as they were; and
-- where no rule asks to wait, none refuses.
use goncordia.Prelude.{
  ◌+◌, ◌-◌, ◌≡◌, refl, ap, subst, ◌∙◌, inl, inr, String, ◌=s=◌, eq_iff, true, ltb, leb, ◌==◌,
  if◌then◌else◌, Option, none, some, List, [], ◌∷◌, Bool-cases, Option-cases, arith,
}
use goncordia.Prelude.Assoc.{lookup, insert, lookup-insert}
use goncordia.Time.{Time, truncate}
use goncordia.Worker.{NormalizedRateLimit}
use goncordia.Worker.Config.{is_local, is_fixed_window}
use goncordia.Worker.LocalRate.{
  LocalRateState, Rates, no_starts, rate_at, touch, KeyedRule, Reservation, rate_reservation,
  undo_state, undo, rollback, reserve_rule, reserve_local_rate_limits,
}

-- The same starts are counted, whether an entry without any is there or not.
abbrev pub SameRates : Rates → Rates → Type 0
SameRates a b = (key : String) → rate_at key a ≡ rate_at key b

pub rate_at-insert :
    (key other : String) (state : LocalRateState) (rates : Rates)
    → rate_at other (insert key state rates)
      ≡ (if key =s= other then state else rate_at other rates)
unfolding rate_at
rate_at-insert key other state rates = ground (arith, lookup-insert key other state rates)

pub touch-SameRates : (key : String) (rates : Rates) → SameRates (touch key rates) rates
unfolding touch rate_at
touch-SameRates key rates other = elim (Option-cases (lookup key rates)) [
  | inl e ↦ ground (arith, e, lookup-insert key other no_starts rates, eq_iff key other)
  | inr (state, e) ↦ rw (e, touch) refl
]

undo-SameRates : (r : Reservation) (a b : Rates) → SameRates a b → SameRates (undo r a) (undo r b)
unfolding undo
undo-SameRates r a b same other = ground (
  arith,
  rate_at-insert r.key other (undo_state r (rate_at r.key a)) a,
  rate_at-insert r.key other (undo_state r (rate_at r.key b)) b,
  same r.key,
  same other,
)

rollback-SameRates :
    (rs : List Reservation) (a b : Rates)
    → SameRates a b
    → SameRates (rollback rs a) (rollback rs b)
unfolding rollback
rollback-SameRates [] a b same = same
rollback-SameRates (r ∷ rs) a b same =
    rollback-SameRates rs (undo r a) (undo r b) (undo-SameRates r a b same)

-- A rule's reservation is undone exactly.
abbrev Undone : String → LocalRateState → Option (LocalRateState × Reservation) → Type 0
Undone key state none = Unit
Undone key state (some (next, r)) = (r.key ≡ key) × (undo_state r next ≡ state)

undo-reserved :
    (key : String) (state : LocalRateState) (reserved : Time)
    → Undone key state (some (record state { tat = reserved }, rate_reservation key state reserved))
unfolding undo_state
undo-reserved key state reserved =
    let same : (reserved == reserved) ≡ true = ground arith in (refl, rw same refl)

reserve_rule-Undone :
    (key : String) (rule : NormalizedRateLimit) (now : Time) (state : LocalRateState)
    → Undone key state (reserve_rule (key, rule) now state)
unfolding reserve_rule undo_state
reserve_rule-Undone key rule now state = elim (Bool-cases (is_fixed_window rule.mode)) [
  | inl window ↦ elim (Bool-cases (state.window_start == truncate now rule.period)) [
    | inr moved ↦ rw (window, reserve_rule, moved) (refl, refl)
    | inl stays ↦ elim (Bool-cases (leb rule.limit state.count)) [
      | inl full ↦ rw (window, reserve_rule, stays, full) tt
      | inr room ↦ rw (window, reserve_rule, stays, room) (refl, refl)
    ]
  ]
  | inr rate ↦ elim (Bool-cases (ltb now (state.tat - rule.tolerance))) [
    | inl early ↦ rw (rate, reserve_rule, early) tt
    | inr due ↦
        rw (rate, reserve_rule, due)
          (undo-reserved key state ((if ltb state.tat now then now else state.tat) + rule.interval))
  ]
]

undo-insert :
    (key : String) (r : Reservation) (state : LocalRateState) (rates : Rates)
    → r.key ≡ key
    → undo_state r state ≡ rate_at key rates
    → SameRates (undo r (insert key state rates)) rates
unfolding undo
undo-insert key r state rates at undone other =
    let found : rate_at r.key (insert key state rates) ≡ state =
      ground (arith, rate_at-insert key r.key state rates, eq_iff key r.key, at) in
    ground (
      arith,
      at,
      undone,
      found,
      ap (undo_state r) found,
      rate_at-insert r.key other (undo_state r (rate_at r.key (insert key state rates)))
          (insert key state rates),
      rate_at-insert key other state rates,
      eq_iff key other,
      eq_iff r.key other,
    )

-- The rates where a reservation that was made is given back at once.
abbrev pub after_rollback : Rates × Option (List Reservation) → Rates
after_rollback (rates, none) = rates
after_rollback (rates, some held) = rollback held rates

reserve-held :
    (rules : List KeyedRule) (now : Time) (held : List Reservation) (rates start : Rates)
    → SameRates (rollback held rates) start
    → SameRates (after_rollback (reserve_local_rate_limits rules now held rates)) start
unfolding reserve_local_rate_limits
reserve-held [] now held rates start same = same
reserve-held ((key, rule) ∷ rules) now held rates start same =
    let made = touch key rates in
    let kept : SameRates (rollback held made) start =
      λ k. rollback-SameRates held made rates (touch-SameRates key rates) k ∙ same k in
    elim (Bool-cases (is_local rule.scope)) [
      | inr elsewhere ↦
          rw (elsewhere, reserve_local_rate_limits) (reserve-held rules now held rates start same)
      | inl here ↦ elim (Option-cases (reserve_rule (key, rule) now (rate_at key made))) [
        | inl refused ↦ rw (here, reserve_local_rate_limits, refused) kept
        | inr ((state, r), e) ↦
            let undone : Undone key (rate_at key made) (some (state, r)) =
              subst (Undone key (rate_at key made)) e
                (reserve_rule-Undone key rule now (rate_at key made)) in
            rw (here, reserve_local_rate_limits, e)
              (reserve-held rules now (r ∷ held) (insert key state made) start (λ k.
                rollback-SameRates held (undo r (insert key state made)) made
                  (undo-insert key r state made undone.0 undone.1) k
                ∙ kept k))
      ]
    ]

-- A reservation over any rules counts no start in the end where it is refused, nor where it is made
-- and rolled back at once: every key has the state that it had before.
pub reserve-rollback :
    (rules : List KeyedRule) (now : Time) (rates : Rates)
    → SameRates (after_rollback (reserve_local_rate_limits rules now [] rates)) rates
unfolding rollback
reserve-rollback rules now rates = reserve-held rules now [] rates rates (λ k. refl)
