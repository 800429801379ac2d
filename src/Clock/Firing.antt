-- ===== src/Clock/Firing.antt =====
-- The timers of the manual clock: which are armed, and when they fire.
use goncordia.Prelude.{
  min, ◌^◌, ℕ, zero, suc, ◌+◌, ◌-◌, ◌*◌, ◌/◌, ◌%◌, ◌≤◌, ◌<◌, ◌≡◌, refl, ap, ◌∙◌, ◌⊎◌, inl, inr, ℤ,
  pos, negsuc, positive, pos_part, true, not, if◌then◌else◌, Bool-cases, List, [], ◌∷◌, length,
  keep, All, All-append, All-imp, All-map, arith,
}
use goncordia.Time.{Time, before, add}
use goncordia.Clock.{
  next_tick, add_bits, new_manual, or_same, ManualTimer, Manual, timer_of, new_timer, ticker_of,
  new_ticker, fire, set, make_timer, make_ticker, advance_by, set_to, stop_at, receive_at, advance,
  active_timers, stop_timer, at_place, stop, receive, Call, step, run,
}
use native.Mathlib.Nat.{mod-lt, div-add-mod, mod-eq_of_lt}

-- A timer is in the clock's map as long as it is not stopped, and then it fires later than now.
abbrev pub IsArmed : Time → ManualTimer → Type 0
IsArmed now timer =
    (timer.active ≡ not timer.stopped) × ((timer.stopped ≡ true) ⊎ (now < timer.next))

abbrev pub IsSound : Manual → Type 0
IsSound m = All (IsArmed m.now) m.timers

-- A timer in the clock's map fires later than now; it was made after the start, with an interval of less
-- than 2^62 nanoseconds.
abbrev IsTimely : Time → Time → ManualTimer → Type 0
IsTimely start now timer =
    (timer.active ≡ not timer.stopped)
    × ((timer.stopped ≡ true)
        ⊎ ((now < timer.next) × (start ≤ timer.next) × (timer.interval < 2 ^ 62)))

IsTimely-IsArmed :
    (start now : Time) (timer : ManualTimer) → IsTimely start now timer → IsArmed now timer
IsTimely-IsArmed start now timer (both, ahead) = ground arith

-- The first tick of a ticker's grid after a time.
grid :
    (interval next t : ℕ)
    → 0 < interval
    → next ≤ t
    → (t < next + ((t - next) / interval + 1) * interval)
      × (next + ((t - next) / interval + 1) * interval ≤ t + interval)
grid interval next t some_interval due =
    let q = (t - next) / interval in
    let split : interval * q + (t - next) % interval ≡ t - next = div-add-mod (t - next) interval in
    let rest = mod-lt (t - next) some_interval in
    let grown : (q + 1) * interval ≡ interval * q + interval = omega arith in
    (omega arith, omega arith)

-- Where the jump and an interval fit in an int64, nothing wraps.
pub next_tick-grid :
    (t : Time) (timer : ManualTimer)
    → 0 < timer.interval
    → t - timer.next + timer.interval < 2 ^ 63
    → next_tick t timer ≡ timer.next + ((t - timer.next) / timer.interval + 1) * timer.interval
next_tick-grid t timer some_interval short =
    let jump = t - timer.next in
    let whole : min jump (2 ^ 63 - 1) ≡ jump = omega (arith, short) in
    let product = (jump / timer.interval + 1) * timer.interval in
    let split : timer.interval * (jump / timer.interval) + jump % timer.interval ≡ jump =
      div-add-mod jump timer.interval in
    let small : product < 2 ^ 63 = omega (arith, split, short) in
    let bits : product % 2 ^ 64 ≡ product = mod-eq_of_lt (omega (arith, small)) in
    ap (λ d. add_bits timer.next ((d / timer.interval + 1) * timer.interval % 2 ^ 64)) whole
    ∙ ap (add_bits timer.next) bits
    ∙ ground (arith, small)

fire-IsTimely :
    (start now t : Time) (timer : ManualTimer)
    → now ≤ t
    → t < start + 2 ^ 62
    → IsTimely start now timer
    → IsTimely start t (fire t timer)
unfolding fire
fire-IsTimely start now t timer later near (both, ahead) =
    ground (arith, grid timer.interval timer.next t, next_tick-grid t timer)

timer_of-IsTimely : (start now : Time) (d : ℤ) → start ≤ now → IsTimely start now (timer_of now d)
unfolding timer_of
timer_of-IsTimely start now d since = ground arith

positive-later : (now : Time) (d : ℤ) → positive d ≡ true → now < now + pos_part d
positive-later now (pos n) h = ground arith
positive-later now (negsuc n) h = cc

All-at_place :
    (P : ManualTimer → Type 0) (f : ManualTimer → ManualTimer)
    → ((timer : ManualTimer) → P timer → P (f timer))
    → (i : ℕ) (timers : List ManualTimer) → All P timers
    → All P (at_place f i timers)
All-at_place P f kept i [] h = tt
All-at_place P f kept zero (timer ∷ timers) h = (kept timer h.0, h.1)
All-at_place P f kept (suc i) (timer ∷ timers) h = (h.0, All-at_place P f kept i timers h.1)

stop_timer-IsTimely :
    (start now : Time) (timer : ManualTimer)
    → IsTimely start now timer
    → IsTimely start now (stop_timer timer)
stop_timer-IsTimely start now timer (both, ahead) = ground arith

IsTimely-earlier :
    (start now t : Time) (timer : ManualTimer)
    → t ≤ now
    → IsTimely start now timer
    → IsTimely start t timer
IsTimely-earlier start now t timer earlier (both, ahead) = ground arith

-- Less than 2^62 nanoseconds, which are 146 years, from the start on.
abbrev pub IsNear : Time → Time → Type 0
IsNear start now = (start ≤ now) × (now < start + 2 ^ 62)

abbrev pub interval_of : Call → ℕ
interval_of (make_ticker d) = pos_part d
interval_of _ = 0

-- The clock shows times near the start before, between and after the calls, and the intervals are as
-- short.
unfoldable pub IsShort : Time → Manual → List Call → Type 0
IsShort start m [] = IsNear start m.now
IsShort start m (c ∷ calls) =
    IsNear start m.now × (interval_of c < 2 ^ 62) × IsShort start (step m c) calls

module _ (start : Time) where
  abbrev AllTimely : Manual → Type 0
  AllTimely m = All (IsTimely start m.now) m.timers

  set-AllTimely :
      (m : Manual) (t : Time) → IsNear start (set m t).now → AllTimely m → AllTimely (set m t)
  unfolding set
  set-AllTimely m t near h = elim (Bool-cases (before t m.now)) [
    | inl back ↦
        rw (back, set)
          (All-imp
            (λ timer timely. IsTimely-earlier start m.now t timer (ground (arith, back)) timely) _
            h)
    | inr forward ↦
        let in_span : t < start + 2 ^ 62 = ground (arith, forward, near) in
        rw (forward, set)
          (All-map _ _ m.timers (
            All-imp
              (λ timer timely.
                fire-IsTimely start m.now t timer (ground (arith, forward)) in_span timely)
              _ h))
  ]

  new_ticker-AllTimely :
      (m : Manual) (d : ℤ)
      → IsNear start m.now
      → pos_part d < 2 ^ 62
      → AllTimely m
      → AllTimely (or_same m (new_ticker m d))
  unfolding new_ticker
  new_ticker-AllTimely m d near short h = elim (Bool-cases (positive d)) [
    | inl ahead ↦
        let later : m.now < m.now + pos_part d = positive-later m.now d ahead in
        rw (ahead, new_ticker)
          (All-append (IsTimely start m.now) m.timers (ticker_of m.now (pos_part d) ∷ []) h
            ((refl, inr (later, omega (arith, near), short)), tt))
    | inr behind ↦ rw (behind, new_ticker) h
  ]

  step-AllTimely :
      (m : Manual) (c : Call)
      → IsNear start m.now
      → IsNear start (step m c).now
      → interval_of c < 2 ^ 62
      → AllTimely m
      → AllTimely (step m c)
  unfolding step new_timer new_ticker advance stop receive
  step-AllTimely m (make_timer d) near near' short h =
      All-append _ m.timers _ h (timer_of-IsTimely start m.now d near.0, tt)
  step-AllTimely m (make_ticker d) near near' short h = new_ticker-AllTimely m d near short h
  step-AllTimely m (advance_by (pos n)) near near' short h =
      set-AllTimely m (add m.now (pos n)) near' h
  step-AllTimely m (advance_by (negsuc n)) near near' short h = h
  step-AllTimely m (set_to t) near near' short h = set-AllTimely m t near' h
  step-AllTimely m (stop_at i) near near' short h =
      All-at_place _ _ (stop_timer-IsTimely start m.now) i m.timers h
  step-AllTimely m (receive_at i) near near' short h =
      All-at_place _ _ (λ timer timely. timely) i m.timers h

  IsShort-now : (m : Manual) (calls : List Call) → IsShort start m calls → IsNear start m.now
  unfolding IsShort
  IsShort-now m [] short = short
  IsShort-now m (c ∷ calls) short = short.0

  run-AllTimely :
      (m : Manual) (calls : List Call)
      → IsShort start m calls
      → AllTimely m
      → AllTimely (run m calls)
  unfolding run IsShort
  run-AllTimely m [] short h = h
  run-AllTimely m (c ∷ calls) (near, small, short) h =
      run-AllTimely (step m c) calls short
        (step-AllTimely m c near (IsShort-now (step m c) calls short) small h)

active-length :
    (now : Time) (timers : List ManualTimer)
    → All (IsArmed now) timers
    → length (keep (λ timer. timer.active) timers)
      ≡ length (keep (λ timer. not timer.stopped) timers)
active-length now [] h = refl
active-length now (timer ∷ timers) ((both, ahead), h) =
    let rest = active-length now timers h in
    let arms = keep (λ t. t.active) timers in
    ap (λ b. length (if b then timer ∷ arms else arms)) both
    ∙ elim (Bool-cases timer.stopped) [ inl s ↦ rw s rest | inr s ↦ rw s (ap suc rest) ]

-- Over every history of a new clock whose times stay within 2^62 nanoseconds from a start on, as its
-- intervals do, moves back in time included: a timer is in the clock's map just where it is not
-- stopped, what is in the map fires later than now, and `ActiveTimers` counts the timers that are not
-- stopped.
pub run-IsSound :
    (start t : Time) (calls : List Call)
    → IsShort start (new_manual t) calls
    → IsSound (run (new_manual t) calls)
      × (active_timers (run (new_manual t) calls)
          ≡ length (keep (λ timer. not timer.stopped) (run (new_manual t) calls).timers))
unfolding active_timers new_manual
run-IsSound start t calls short =
    let now = (run (new_manual t) calls).now in
    let sound : IsSound (run (new_manual t) calls) =
      All-imp (λ timer timely. IsTimely-IsArmed start now timer timely) _
        (run-AllTimely start (new_manual t) calls short tt) in
    (sound, active-length now _ sound)
