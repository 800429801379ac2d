-- ===== src/Worker/LocalRate.antt =====
-- worker.go: the starts that one pool counts for a queue, rule by rule: `localRateDelay` and
-- `reserveLocalRateLimits` with its rollback. The caller holds the mutex for each; an entry of the
-- map is never deleted, so that its key stands for the pointer that a reservation keeps.
use goncordia.Prelude.{
  ℕ, suc, ◌+◌, ◌-◌, String, Bool, true, false, ◌&&◌, not, ltb, leb, ◌==◌, if◌then◌else◌, Option,
  none, some, List, [], ◌∷◌,
}
use goncordia.Prelude.Assoc.{Assoc, lookup, insert}
use goncordia.Time.{Time, truncate}
use goncordia.Worker.{NormalizedRateLimit}
use goncordia.Worker.Config.{is_local, is_fixed_window}

pub record LocalRateState : Type 0 where
  pub tat : Time
  pub window_start : Time
  pub count : ℕ

-- The states of a queue's rules by their keys.
abbrev pub Rates : Type 0
Rates = Assoc LocalRateState

abbrev pub no_starts : LocalRateState
no_starts = record { tat = 0; window_start = 0; count = 0 }

unfoldable pub rate_at : String → Rates → LocalRateState
rate_at key rates = elim (lookup key rates) [ none ↦ no_starts | some state ↦ state ]

-- An entry that is missing is made.
unfoldable pub touch : String → Rates → Rates
touch key rates = elim (lookup key rates) [ none ↦ insert key no_starts rates | some _ ↦ rates ]

-- How long one rule asks to wait; 0 is not at all.
unfoldable pub rule_delay : NormalizedRateLimit → Time → LocalRateState → ℕ
unfolding is_fixed_window
rule_delay rule now state =
    if is_fixed_window rule.mode
    then (let window = truncate now rule.period in
        if (state.window_start == window) && leb rule.limit state.count
        then window + rule.period - now
        else 0)
    else (let retry_at = state.tat - rule.tolerance in
        if ltb now retry_at then retry_at - now else 0)

-- A rule with the key of a row.
abbrev pub KeyedRule : Type 0
KeyedRule = String × NormalizedRateLimit

abbrev later : ℕ → ℕ → ℕ
later candidate delay = if ltb delay candidate then candidate else delay

-- The loop over the rules; `delay` is the longest so far.
unfoldable pub local_rate_delay : List KeyedRule → Time → ℕ → Rates → Rates × ℕ
unfolding rule_delay touch is_local rate_at
local_rate_delay [] now delay rates = (rates, delay)
local_rate_delay ((key, rule) ∷ rules) now delay rates =
    let skipped = local_rate_delay rules now delay rates in
    let made = touch key rates in
    let rest =
      local_rate_delay rules now (later (rule_delay rule now (rate_at key made)) delay) made in
    if is_local rule.scope then rest else skipped

pub record Reservation : Type 0 where
  pub key : String
  pub previous : Time
  pub reserved : Time
  pub previous_window : Time
  pub previous_count : ℕ
  pub fixed_window : Bool

abbrev pub window_reservation : String → LocalRateState → Reservation
window_reservation key state = record {
  key = key;
  previous = 0;
  reserved = 0;
  previous_window = state.window_start;
  previous_count = state.count;
  fixed_window = true;
}

abbrev pub rate_reservation : String → LocalRateState → Time → Reservation
rate_reservation key state reserved = record {
  key = key;
  previous = state.tat;
  reserved = reserved;
  previous_window = 0;
  previous_count = 0;
  fixed_window = false;
}

unfoldable pub undo_state : Reservation → LocalRateState → LocalRateState
undo_state r state =
    if r.fixed_window
    then record state { window_start = r.previous_window; count = r.previous_count }
    else if state.tat == r.reserved
    then record state { tat = r.previous }
    else state

unfoldable pub undo : Reservation → Rates → Rates
unfolding undo_state rate_at
undo r rates = insert r.key (undo_state r (rate_at r.key rates)) rates

-- `rollbackLocked`, over the reservations from the last one back.
unfoldable pub rollback : List Reservation → Rates → Rates
unfolding undo
rollback [] rates = rates
rollback (r ∷ rs) rates = rollback rs (undo r rates)

-- The state after one rule's start, with its reservation; `none` is a rule that refuses it.
unfoldable pub reserve_rule :
    KeyedRule → Time → LocalRateState → Option (LocalRateState × Reservation)
unfolding is_fixed_window
reserve_rule (key, rule) now state =
    let window = truncate now rule.period in
    let base = if ltb state.tat now then now else state.tat in
    if is_fixed_window rule.mode
    then (if not (state.window_start == window)
        then some (record state { window_start = window; count = 1 }, window_reservation key state)
        else if leb rule.limit state.count
        then none
        else some (record state { count = suc state.count }, window_reservation key state))
    else if ltb now (state.tat - rule.tolerance)
    then none
    else some (
      record state { tat = base + rule.interval },
      rate_reservation key state (base + rule.interval),
    )

-- The loop over the rules, with the reservations so far; `none` is a refusal, after the rollback.
unfoldable pub reserve_local_rate_limits :
    List KeyedRule → Time → List Reservation → Rates → Rates × Option (List Reservation)
unfolding reserve_rule touch rollback is_local rate_at
reserve_local_rate_limits [] now held rates = (rates, some held)
reserve_local_rate_limits ((key, rule) ∷ rules) now held rates =
    let skipped = reserve_local_rate_limits rules now held rates in
    let made = touch key rates in
    let next : Rates × Option (List Reservation) =
      elim (reserve_rule (key, rule) now (rate_at key made)) [
        | none ↦ (rollback held made, none)
        | some (state, r) ↦ reserve_local_rate_limits rules now (r ∷ held) (insert key state made)
      ] in
    if is_local rule.scope then next else skipped
