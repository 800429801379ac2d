-- ===== src/Worker/Ready.antt =====
-- Where no local rule asks a job to wait, its reservation is made: the wait for a rate permit does not
-- spin.
use goncordia.Prelude.{
  ℕ, ◌+◌, ◌<◌, ◌≡◌, refl, sym, ap, ◌∙◌, inl, inr, String, ◌=s=◌, true, false, ltb, if◌then◌else◌,
  some, List, [], ◌∷◌, Bool-cases, Option-cases, arith, All, All-imp, All-and,
}
use native.Mathlib.Nat.{mod-lt}
use goncordia.Prelude.Assoc.{insert}
use goncordia.Time.{Time, truncate}
use goncordia.Worker.{NormalizedRateLimit, QueuePolicy}
use goncordia.Worker.Config.{is_local}
use goncordia.Worker.LocalRate.{
  LocalRateState, Rates, rate_at, touch, rule_delay, KeyedRule, local_rate_delay, Reservation,
  reserve_rule, reserve_local_rate_limits,
}
use goncordia.Driver.{JobRow}
use goncordia.Worker.Limits.{Arithmetic, normalize_rate_limits}
use goncordia.Worker.Permit.{keyed}
use goncordia.Worker.Normal.{IsNormal, normalize_rate_limits-IsNormal}
use goncordia.Worker.Waiting.{local_rate_delay-SameRates}
use goncordia.Worker.Reserve.{SameRates, touch-SameRates, rate_at-insert}

-- A rule that is local asks for no wait.
abbrev pub IsReady : Time → Rates → KeyedRule → Type 0
IsReady now rates (key, rule) =
    is_local rule.scope ≡ true → rule_delay rule now (rate_at key rates) ≡ 0

abbrev pub IsSpaced : KeyedRule → Type 0
IsSpaced (key, rule) = 0 < rule.period

abbrev pub HasOtherKey : String → KeyedRule → Type 0
HasOtherKey key (other, rule) = (key =s= other) ≡ false

abbrev pub DistinctKeys : List KeyedRule → Type 0
DistinctKeys [] = Unit
DistinctKeys ((key, rule) ∷ rules) = All (HasOtherKey key) rules × DistinctKeys rules

abbrev same-IsReady :
    (now : Time) (a b : Rates)
    → SameRates a b
    → (rule : KeyedRule) → IsReady now a rule
    → IsReady now b rule
same-IsReady now a b same (key, rule) ready here =
    ap (rule_delay rule now) (sym (same key)) ∙ ready here

no_delay-IsReady :
    (rules : List KeyedRule) (now : Time) (delay : ℕ) (rates : Rates)
    → (local_rate_delay rules now delay rates).1 ≡ 0
    → (delay ≡ 0) × All (IsReady now rates) rules
unfolding local_rate_delay
no_delay-IsReady [] now delay rates e = (e, tt)
no_delay-IsReady ((key, rule) ∷ rules) now delay rates e = elim (Bool-cases (is_local rule.scope)) [
  | inr elsewhere ↦
      let (zero_delay, rest) =
        no_delay-IsReady rules now delay rates (sym (rw (elsewhere, local_rate_delay) refl) ∙ e) in
      (zero_delay, ((λ here. cc (here, elsewhere)), rest))
  | inl here ↦
      let made = touch key rates in
      let asked = rule_delay rule now (rate_at key made) in
      let (none_asked, rest) =
        no_delay-IsReady rules now (if ltb delay asked then asked else delay) made
          (sym (rw (here, local_rate_delay) refl) ∙ e) in
      let asked_zero : asked ≡ 0 = ground arith in
      let delay_zero : delay ≡ 0 = ground arith in
      (
        delay_zero,
        (
          (λ _. ap (rule_delay rule now) (sym (touch-SameRates key rates key)) ∙ asked_zero),
          All-imp (same-IsReady now made rates (touch-SameRates key rates)) rules rest,
        ),
      )
]

within_window : (now period : ℕ) → 0 < period → now < truncate now period + period
unfolding truncate
within_window now period spaced = ground (arith, mod-lt now spaced)

reserve_rule-ready :
    (key : String) (rule : NormalizedRateLimit) (now : Time) (state : LocalRateState)
    → 0 < rule.period
    → rule_delay rule now state ≡ 0
    → (next : LocalRateState × Reservation) × (reserve_rule (key, rule) now state ≡ some next)
unfolding reserve_rule rule_delay
reserve_rule-ready key rule now state spaced e =
    elim (Option-cases (reserve_rule (key, rule) now state)) [
      | inr made ↦ made
      | inl refused ↦ absurd (ground (arith, within_window now rule.period spaced))
    ]

other-IsReady :
    (now : Time) (key : String) (state : LocalRateState) (rates : Rates) (rule : KeyedRule)
    → HasOtherKey key rule × IsReady now rates rule
    → IsReady now (insert key state (touch key rates)) rule
other-IsReady now key state rates (other, rule) (apart, ready) here =
    let same : rate_at other (insert key state (touch key rates)) ≡ rate_at other rates = ground (
      arith,
      rate_at-insert key other state (touch key rates),
      apart,
      touch-SameRates key rates other,
    ) in
    ap (rule_delay rule now) same ∙ ready here

ready-reserve :
    (rules : List KeyedRule) (now : Time) (held : List Reservation) (rates : Rates)
    → DistinctKeys rules
    → All IsSpaced rules
    → All (IsReady now rates) rules
    → (made : List Reservation) × ((reserve_local_rate_limits rules now held rates).1 ≡ some made)
unfolding reserve_local_rate_limits
ready-reserve [] now held rates distinct spaced ready = (held, refl)
ready-reserve ((key, rule) ∷ rules) now held rates distinct spaced ready =
    elim (Bool-cases (is_local rule.scope)) [
      | inr elsewhere ↦
          rw (elsewhere, reserve_local_rate_limits)
            (ready-reserve rules now held rates distinct.1 spaced.1 ready.1)
      | inl here ↦
          let made = touch key rates in
          let free : rule_delay rule now (rate_at key made) ≡ 0 =
            ap (rule_delay rule now) (touch-SameRates key rates key) ∙ ready.0 here in
          let ((state, r), e) = reserve_rule-ready key rule now (rate_at key made) spaced.0 free in
          rw (here, reserve_local_rate_limits, e)
            (ready-reserve rules now (r ∷ held) (insert key state made) distinct.1 spaced.1 (
              All-imp (other-IsReady now key state rates) rules
                (All-and (HasOtherKey key) (IsReady now rates) rules distinct.0 ready.1)))
    ]

keyed-IsSpaced :
    (arithmetic : Arithmetic) (row : JobRow) (rules : List NormalizedRateLimit)
    → All IsNormal rules
    → All IsSpaced (keyed arithmetic row rules)
unfolding keyed
keyed-IsSpaced arithmetic row [] normal = tt
keyed-IsSpaced arithmetic row (rule ∷ rules) normal =
    (normal.0.0, keyed-IsSpaced arithmetic row rules normal.1)

-- Where the normalized rules of a queue have different keys for a row, and no local one asks the row's
-- job to wait, the reservation of the local rules is made: with the starts that the look at the
-- delays left, the wait for a permit does not go round again without waiting.
pub no_delay-reserve :
    (arithmetic : Arithmetic) (queue : String) (policy : QueuePolicy) (row : JobRow) (now : Time)
    (rates : Rates)
    → DistinctKeys (keyed arithmetic row (normalize_rate_limits arithmetic queue policy))
    → (local_rate_delay
        (keyed arithmetic row (normalize_rate_limits arithmetic queue policy))
        now
        0
        rates).1
      ≡ 0
    → (made : List Reservation) × ((reserve_local_rate_limits
          (keyed arithmetic row (normalize_rate_limits arithmetic queue policy))
          now
          []
          (local_rate_delay
            (keyed arithmetic row (normalize_rate_limits arithmetic queue policy))
            now
            0
            rates).0).1
        ≡ some made)
no_delay-reserve arithmetic queue policy row now rates distinct free =
    let rules = keyed arithmetic row (normalize_rate_limits arithmetic queue policy) in
    let touched = (local_rate_delay rules now 0 rates).0 in
    let spaced =
      keyed-IsSpaced arithmetic row (normalize_rate_limits arithmetic queue policy)
        (normalize_rate_limits-IsNormal arithmetic queue policy) in
    let ready = (no_delay-IsReady rules now 0 rates free).1 in
    ready-reserve rules now [] touched distinct spaced (
      All-imp
        (same-IsReady now rates touched
          (λ key. sym (local_rate_delay-SameRates rules now 0 rates key)))
        rules ready)
