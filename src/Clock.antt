-- ===== src/Clock.antt =====
-- clock/clock.go: the manual clock with its timers, and the context of `WithTimeout`. A timer is a cell
-- of the clock's list, under its place in the order of creation; its channel holds one time at most.
use goncordia.Prelude.{
  ℕ, zero, suc, ◌+◌, ◌-◌, ◌*◌, ◌/◌, ℤ, pos, negative, positive, pos_part, neg_part, Bool, true,
  false, ◌&&◌, ◌||◌, not, ltb, leb, ◌==◌, if◌then◌else◌, Option, none, some, List, [], ◌∷◌, ◌++◌,
  map, length, keep, ◌^◌, ◌%◌, min, negsuc,
}
use goncordia.Time.{Time, is_zero, before, add}
pub mod Firing
pub mod Moves
mod Scenarios

-- `active` is the timer's membership in the clock's map; `interval` is 0 for a one-shot timer.
pub record ManualTimer : Type 0 where
  pub channel : Option Time
  pub next : Time
  pub interval : ℕ
  pub stopped : Bool
  pub active : Bool

pub record Manual : Type 0 where
  pub now : Time
  pub timers : List ManualTimer

-- 2024-01-01T00:00:00Z
abbrev pub default_now : Time
default_now = 63839664000 * 1000000000

unfoldable pub new_manual : Time → Manual
new_manual t = record { now = if is_zero t then default_now else t; timers = [] }

-- The difference stops at the largest and at the smallest duration.
unfoldable pub since : Manual → Time → ℤ
since m t =
    if leb t m.now
    then pos (min (m.now - t) (2 ^ 63 - 1))
    else negsuc (min (t - m.now - 1) (2 ^ 63 - 1))

-- A timer that is due when it is made has already fired.
unfoldable pub timer_of : Time → ℤ → ManualTimer
timer_of now d =
    if positive d
    then record {
      channel = none;
      next = now + pos_part d;
      interval = 0;
      stopped = false;
      active = true;
    }
    else record {
      channel = some now;
      next = add now d;
      interval = 0;
      stopped = true;
      active = false;
    }

unfoldable pub new_timer : Manual → ℤ → Manual
unfolding timer_of
new_timer m d = record m { timers = m.timers ++ (timer_of m.now d ∷ []) }

abbrev pub ticker_of : Time → ℕ → ManualTimer
ticker_of now d = record {
  channel = none;
  next = now + d;
  interval = d;
  stopped = false;
  active = true;
}

-- `none` is the panic on an interval that is not positive.
unfoldable pub new_ticker : Manual → ℤ → Option Manual
new_ticker m d =
    if positive d
    then some (record m { timers = m.timers ++ (ticker_of m.now (pos_part d) ∷ []) })
    else none

-- A send that does not block: a full channel keeps what it holds.
abbrev pub offer : Time → Option Time → Option Time
offer t (some held) = some held
offer t none = some t

abbrev pub is_due : Time → ManualTimer → Bool
is_due t timer = not (timer.stopped || ltb t timer.next)

-- t.Add(d) for an int64 whose bits are those of a number below 2^64.
abbrev pub add_bits : Time → ℕ → Time
add_bits t bits = if ltb bits (2 ^ 63) then t + bits else t - (2 ^ 64 - bits)

-- The first tick after a time that a ticker has come to. The difference of the times stops at the largest
-- duration, and the product is an int64 that wraps.
abbrev pub next_tick : Time → ManualTimer → Time
next_tick t timer =
    add_bits timer.next
      ((min (t - timer.next) (2 ^ 63 - 1) / timer.interval + 1) * timer.interval % 2 ^ 64)

-- A one-shot timer leaves the map.
abbrev pub fire_once : ManualTimer → ManualTimer
fire_once timer = record timer {
  channel = offer timer.next timer.channel;
  stopped = true;
  active = false;
}

abbrev pub fire_tick : Time → ManualTimer → ManualTimer
fire_tick t timer = record timer {
  channel = offer timer.next timer.channel;
  next = next_tick t timer;
}

abbrev pub fire_due : Time → ManualTimer → ManualTimer
fire_due t timer = if timer.interval == 0 then fire_once timer else fire_tick t timer

-- What a move to a time that is not earlier makes of a timer.
unfoldable pub fire : Time → ManualTimer → ManualTimer
fire t timer = if timer.active && is_due t timer then fire_due t timer else timer

unfoldable pub set : Manual → Time → Manual
unfolding fire
set m t =
    if before t m.now
    then record m { now = t }
    else record { now = t; timers = map (fire t) m.timers }

-- `none` is the panic on a negative duration.
unfoldable pub advance : Manual → ℤ → Option Manual
unfolding set
advance m d = if negative d then none else some (set m (add m.now d))

unfoldable pub active_timers : Manual → ℕ
active_timers m = length (keep (λ timer. timer.active) m.timers)

abbrev pub stop_timer : ManualTimer → ManualTimer
stop_timer timer = if timer.stopped then timer else record timer { stopped = true; active = false }

abbrev pub at_place : (ManualTimer → ManualTimer) → ℕ → List ManualTimer → List ManualTimer
at_place f i [] = []
at_place f zero (timer ∷ timers) = f timer ∷ timers
at_place f (suc i) (timer ∷ timers) = timer ∷ at_place f i timers

unfoldable pub stop : Manual → ℕ → Manual
stop m i = record m { timers = at_place stop_timer i m.timers }

-- A receive from a timer's channel empties it.
unfoldable pub receive : Manual → ℕ → Manual
receive m i = record m { timers = at_place (λ timer. record timer { channel = none }) i m.timers }

pub data Call : Type 0 where
  make_timer make_ticker advance_by : ℤ → Call
  set_to : Time → Call
  stop_at receive_at : ℕ → Call

-- A call that panics leaves the clock as it was.
abbrev pub or_same : Manual → Option Manual → Manual
or_same m none = m
or_same m (some m') = m'

unfoldable pub step : Manual → Call → Manual
unfolding new_timer new_ticker advance set stop receive
step m (make_timer d) = new_timer m d
step m (make_ticker d) = or_same m (new_ticker m d)
step m (advance_by d) = or_same m (advance m d)
step m (set_to t) = set m t
step m (stop_at i) = stop m i
step m (receive_at i) = receive m i

unfoldable pub run : Manual → List Call → Manual
unfolding step
run m [] = m
run m (c ∷ cs) = run (step m c) cs

pub data ContextError : Type 0 where
  canceled deadline_exceeded : ContextError

-- `timeoutContext`: the parent's deadline, its own, and the error once it is done.
pub record TimeoutContext : Type 0 where
  pub parent : Option Time
  pub own : Time
  pub error : Option ContextError

unfoldable pub deadline : TimeoutContext → Time
deadline c = elim c.parent [ none ↦ c.own | some at ↦ if before at c.own then at else c.own ]

-- The first end counts.
unfoldable pub finish : ContextError → TimeoutContext → TimeoutContext
finish e c = elim c.error [ none ↦ record c { error = some e } | some _ ↦ c ]
