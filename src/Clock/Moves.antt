-- ===== src/Clock/Moves.antt =====
-- The manual clock moved in two steps and in one.
use goncordia.Prelude.{
  ◌^◌, All, ℕ, ◌+◌, ◌-◌, ◌*◌, ◌/◌, ◌≤◌, ◌<◌, ◌==◌, ◌≡◌, refl, sym, ap, ◌∙◌, inl, inr, true, false,
  ◌&&◌, ltb, Bool-cases, Option, none, some, List, [], ◌∷◌, map, arith,
}
use goncordia.Time.{Time, before}
use goncordia.Clock.{ManualTimer, Manual, offer, is_due, next_tick, fire_once, fire_tick, fire, set}
use goncordia.Clock.Firing.{next_tick-grid}
use native.Mathlib.Nat.{div-add-mod', add-mul-div_right, div-eq_of_lt-le}

-- The next tick of a ticker is the same whether the time came in two moves or in one.
grid-shift :
    (interval next s b : ℕ)
    → 0 < interval
    → next + s * interval ≤ b
    → next + s * interval + ((b - (next + s * interval)) / interval + 1) * interval
      ≡ next + ((b - next) / interval + 1) * interval
grid-shift interval next s b some_interval due =
    let moved : b - next ≡ (b - (next + s * interval)) + s * interval = omega arith in
    let steps : (b - next) / interval ≡ (b - (next + s * interval)) / interval + s =
      ap (λ n. n / interval) moved
      ∙ add-mul-div_right (b - (next + s * interval)) s some_interval in
    omega (arith, ap (λ n. n * interval) steps)

grid-same :
    (interval next a b : ℕ)
    → 0 < interval
    → next ≤ a
    → a ≤ b
    → b < next + ((a - next) / interval + 1) * interval
    → (b - next) / interval ≡ (a - next) / interval
grid-same interval next a b some_interval due later short =
    let split = div-add-mod' (a - next) interval in
    div-eq_of_lt-le interval (omega arith) (omega arith)

-- A jump to the time from the timer's next firing, with an interval, fits in an int64.
abbrev pub IsNear : Time → ManualTimer → Type 0
IsNear t timer = t - timer.next + timer.interval < 2 ^ 63

abbrev grid_tick : Time → ManualTimer → Time
grid_tick t timer = timer.next + ((t - timer.next) / timer.interval + 1) * timer.interval

module _ (a b : Time) (later : a ≤ b) where
  idle-fire :
      (t : Time) (timer : ManualTimer)
      → (timer.active && is_due t timer) ≡ false
      → fire t timer ≡ timer
  unfolding fire
  idle-fire t timer idle = rw (idle, fire) refl

  fire-once :
      (t : Time) (timer : ManualTimer)
      → (timer.active && is_due t timer) ≡ true
      → (timer.interval == 0) ≡ true
      → fire t timer ≡ fire_once timer
  unfolding fire
  fire-once t timer due once = rw (due, once, fire) refl

  fire-tick :
      (t : Time) (timer : ManualTimer)
      → (timer.active && is_due t timer) ≡ true
      → (timer.interval == 0) ≡ false
      → fire t timer ≡ fire_tick t timer
  unfolding fire
  fire-tick t timer due ticks = rw (due, ticks, fire) refl

  offer-offer : (t u : Time) (c : Option Time) → offer t (offer u c) ≡ offer u c
  offer-offer t u none = refl
  offer-offer t u (some held) = refl

  earlier-IsNear : (timer : ManualTimer) → IsNear b timer → IsNear a timer
  earlier-IsNear timer near = omega (arith, near)

  tick-tick :
      (timer : ManualTimer)
      → IsNear b timer
      → (timer.interval == 0) ≡ false
      → next_tick a timer ≤ b
      → fire_tick b (fire_tick a timer) ≡ fire_tick b timer
  tick-tick timer near ticks due =
      let some_interval : 0 < timer.interval = ground (arith, ticks) in
      let first = next_tick-grid a timer some_interval (earlier-IsNear timer near) in
      let twice : next_tick b (fire_tick a timer) ≡ next_tick b timer =
        next_tick-grid b (fire_tick a timer) some_interval (omega (arith, first, near))
        ∙ ap (λ n. n + ((b - n) / timer.interval + 1) * timer.interval) first
        ∙ grid-shift timer.interval timer.next ((a - timer.next) / timer.interval + 1) b
            some_interval (omega (arith, first, due))
        ∙ sym (next_tick-grid b timer some_interval near) in
      ap
        (λ n. record timer {
          channel = offer (next_tick a timer) (offer timer.next timer.channel);
          next = n;
        })
        twice
      ∙ ap (λ c. record timer { channel = c; next = next_tick b timer })
          (offer-offer (next_tick a timer) timer.next timer.channel)

  tick-idle :
      (timer : ManualTimer)
      → IsNear b timer
      → timer.next ≤ a
      → (timer.interval == 0) ≡ false
      → b < next_tick a timer
      → fire_tick a timer ≡ fire_tick b timer
  tick-idle timer near due ticks short =
      let some_interval : 0 < timer.interval = ground (arith, ticks) in
      let first = next_tick-grid a timer some_interval (earlier-IsNear timer near) in
      let same : next_tick a timer ≡ next_tick b timer =
        first
        ∙ ap (λ q. timer.next + (q + 1) * timer.interval)
            (sym (
              grid-same timer.interval timer.next a b some_interval due later
                (omega (arith, first, short))))
        ∙ sym (next_tick-grid b timer some_interval near) in
      ap (λ n. record timer { channel = offer timer.next timer.channel; next = n }) same

  due-le : (timer : ManualTimer) → (timer.active && is_due a timer) ≡ true → timer.next ≤ a
  due-le timer due = ground (arith, due)

  due-later :
      (timer : ManualTimer)
      → (timer.active && is_due a timer) ≡ true
      → (timer.active && is_due b timer) ≡ true
  due-later timer due = ground (arith, due)

  due-tick :
      (timer : ManualTimer)
      → (timer.active && is_due a timer) ≡ true
      → next_tick a timer ≤ b
      → (timer.active && is_due b (fire_tick a timer)) ≡ true
  due-tick timer due reached = ground (arith, due)

  ticker-fire :
      (timer : ManualTimer)
      → IsNear b timer
      → (timer.active && is_due a timer) ≡ true
      → (timer.interval == 0) ≡ false
      → fire b (fire_tick a timer) ≡ fire_tick b timer
  ticker-fire timer near due ticks = elim (Bool-cases (ltb b (next_tick a timer))) [
    | inl short ↦
        idle-fire b (fire_tick a timer) (ground (arith, short))
        ∙ tick-idle timer near (due-le timer due) ticks (ground (arith, short))
    | inr reached ↦
        fire-tick b (fire_tick a timer) (due-tick timer due (ground (arith, reached))) ticks
        ∙ tick-tick timer near ticks (ground (arith, reached))
  ]

  due-fire :
      (timer : ManualTimer)
      → IsNear b timer
      → (timer.active && is_due a timer) ≡ true
      → fire b (fire a timer) ≡ fire b timer
  due-fire timer near due = elim (Bool-cases (timer.interval == 0)) [
    | inl once ↦
        ap (fire b) (fire-once a timer due once)
        ∙ idle-fire b (fire_once timer) refl
        ∙ sym (fire-once b timer (due-later timer due) once)
    | inr ticks ↦
        ap (fire b) (fire-tick a timer due ticks)
        ∙ ticker-fire timer near due ticks
        ∙ sym (fire-tick b timer (due-later timer due) ticks)
  ]

  fire-fire : (timer : ManualTimer) → IsNear b timer → fire b (fire a timer) ≡ fire b timer
  fire-fire timer near = elim (Bool-cases (timer.active && is_due a timer)) [
    | inl due ↦ due-fire timer near due
    | inr idle ↦ ap (fire b) (idle-fire a timer idle)
  ]

  map-fire :
      (timers : List ManualTimer)
      → All (IsNear b) timers
      → map (fire b) (map (fire a) timers) ≡ map (fire b) timers
  map-fire [] near = refl
  map-fire (timer ∷ timers) (near, rest) = rw (fire-fire timer near, map-fire timers rest) refl

-- Where the jump over each timer's next firing, with the timer's interval, is less than 2^63 nanoseconds:
-- a forward move of the manual clock in two steps, with nothing else between them, leaves the clock
-- that the same move leaves in one step: the time, every timer's next firing, which timers are in
-- the map, and what the channels hold.
pub set-set :
    (m : Manual) (a b : Time)
    → m.now ≤ a
    → a ≤ b
    → All (IsNear b) m.timers
    → set (set m a) b ≡ set m b
unfolding set
set-set m a b forward later near =
    let first : before a m.now ≡ false = ground arith in
    let second : before b a ≡ false = ground arith in
    let whole : before b m.now ≡ false = ground arith in
    rw (first, second, whole, set)
      (ap (λ ts. record { now = b; timers = ts }) (map-fire a b later m.timers near))
