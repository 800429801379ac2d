-- ===== src/Clock/Scenarios.antt =====
-- The theorems on the manual clock at concrete clocks.
use goncordia.Prelude.{
  ◌+◌, ◌^◌, ◌≡◌, refl, pos, true, false, not, none, some, List, [], ◌∷◌, length, keep, arith,
}
use goncordia.Time.{add}
use goncordia.Clock.{
  Manual, Call, make_timer, make_ticker, advance_by, set_to, stop_at, receive_at, new_manual, run,
  active_timers, set, fire, next_tick, step, new_timer, timer_of, new_ticker, advance, stop,
  receive,
}
use goncordia.Clock.Firing.{IsSound, IsShort, run-IsSound}
use goncordia.Clock.Moves.{set-set}

abbrev calls : List Call
calls =
    make_ticker (pos 10)
    ∷ make_timer (pos 25)
    ∷ advance_by (pos 23)
    ∷ receive_at 0
    ∷ set_to 990
    ∷ stop_at 1
    ∷ []

abbrev ticking : Manual
ticking = record {
  now = 1000;
  timers =
      record { channel = none; next = 1010; interval = 10; stopped = false; active = true }
      ∷ record { channel = none; next = 1025; interval = 0; stopped = false; active = true }
      ∷ [];
}

-- Two ticks are due and one is dropped; the grid goes on at 1030.
set_23 : set ticking 1023 ≡ record {
  now = 1023;
  timers =
      record { channel = some 1010; next = 1030; interval = 10; stopped = false; active = true }
      ∷ record { channel = none; next = 1025; interval = 0; stopped = false; active = true }
      ∷ [];
}
unfolding set fire
set_23 = refl

-- A jump of 2^62 nanoseconds over an interval as long wraps: the next tick is before the last.
wraps :
    next_tick
      (2 ^ 63 + 2 ^ 62)
      (record { channel = none; next = 2 ^ 63; interval = 2 ^ 62; stopped = false; active = true })
    ≡ 0
wraps = refl

short : IsShort 900 (new_manual 1000) calls
unfolding IsShort new_manual step new_timer timer_of new_ticker advance set stop receive add
short = omega arith

run-IsSound_example :
    IsSound (run (new_manual 1000) calls)
    × (active_timers (run (new_manual 1000) calls)
        ≡ length (keep (λ timer. not timer.stopped) (run (new_manual 1000) calls).timers))
run-IsSound_example = run-IsSound 900 1000 calls short

set-set_example : set (set ticking 1012) 1030 ≡ set ticking 1030
set-set_example =
    set-set ticking 1012 1030 (omega arith) (omega arith) (omega arith, (omega arith, tt))
