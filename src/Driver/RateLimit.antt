-- ===== src/Driver/RateLimit.antt =====
-- driver/rate_limit.go: distributed rate limits on a compare-and-swap of one stored time, as a
-- generic cell rate (GCRA) or as a count in fixed windows.
pub mod Gcra
pub mod Window
pub mod Replay
pub mod Requests
use goncordia.Prelude.{
  ℕ, zero, suc, ◌+◌, ◌-◌, ◌*◌, ◌/◌, ◌^◌, ◌≡◌, ◌≢◌, ◌⊎◌, String, ◌=s=◌, Bool, true, false, ◌||◌, not,
  ltb, leb, ◌==◌, if◌then◌else◌, ℤ, pos, positive, pos_part, Option, none, some, List, [], ◌∷◌,
}
use goncordia.Time.{Time, truncate, millisecond}
use goncordia.Driver.{
  ScheduleCursorCreateParams, ScheduleCursorResult, ScheduleCursorAdvanceParams, Error, Result, ok,
  err,
}

-- A `RateLimitMode` is a uint8 with two known values.
pub data RateLimitMode : Type 0 where
  gcra fixed_window : RateLimitMode
  other : ℕ → RateLimitMode

pub record RateLimitAcquireParams : Type 0 where
  pub key : String
  pub now : Time
  pub limit : ℤ
  pub period : ℤ
  pub burst : ℤ
  pub mode : RateLimitMode

pub data RateLimitError : Type 0 where
  invalid_parameters burst_exceeds_limit unknown_mode window_too_short cancelled : RateLimitError
  store : Error → RateLimitError

-- `RateLimitAcquireResult`, or the error.
pub data Outcome : Type 0 where
  acquired : Outcome
  retry_at : Time → Outcome
  failed : RateLimitError → Outcome

-- What a driver with `Capabilities.LinearizableCAS` promises of its schedule cursors. `cursor` is the
-- stored time; a call that fails may have been done or not.
pub record CursorStore (S : Type 0) : Type 0 where
  pub get_or_create : S → ScheduleCursorCreateParams → S × Result ScheduleCursorResult
  pub advance : S → ScheduleCursorAdvanceParams → S × Result Bool
  pub cursor : S → String → Option Time
  pub get_or_create_law :
      (s : S) (p : ScheduleCursorCreateParams)
      → ((at : Time) × (cursor s p.id ≡ some at)
          × (cursor (get_or_create s p).0 p.id ≡ some at)
          × ((get_or_create s p).1 ≡ ok (record { at = at; created = false })))
        ⊎ ((cursor s p.id ≡ none)
            × (cursor (get_or_create s p).0 p.id ≡ some p.initial_at)
            × ((get_or_create s p).1 ≡ ok (record { at = p.initial_at; created = true })))
        ⊎ ((e : Error) × ((get_or_create s p).1 ≡ err e)
            × ((cursor (get_or_create s p).0 p.id ≡ cursor s p.id)
                ⊎ ((cursor s p.id ≡ none)
                    × (cursor (get_or_create s p).0 p.id ≡ some p.initial_at))))
  pub advance_law :
      (s : S) (p : ScheduleCursorAdvanceParams)
      → ((cursor s p.id ≡ some p.expected)
          × (cursor (advance s p).0 p.id ≡ some p.next)
          × ((advance s p).1 ≡ ok true))
        ⊎ ((cursor s p.id ≢ some p.expected)
            × (cursor (advance s p).0 p.id ≡ cursor s p.id)
            × ((advance s p).1 ≡ ok false))
        ⊎ ((e : Error) × ((advance s p).1 ≡ err e)
            × ((cursor (advance s p).0 p.id ≡ cursor s p.id)
                ⊎ ((cursor s p.id ≡ some p.expected)
                    × (cursor (advance s p).0 p.id ≡ some p.next))))

-- The world around one request: what other processes do to the store between the read and the write
-- of a round, and whether the context is done after it. Rounds are numbered down to 0.
pub record World (S : Type 0) : Type 0 where
  pub others : ℕ → S → S
  pub is_done : ℕ → Bool

-- time.Duration(float64(period) / float64(limit)), at least a nanosecond; `quotient` is the quotient
-- of floats, rounded to a duration.
unfoldable pub rate_interval : (ℕ → ℕ → ℕ) → ℕ → ℕ → ℕ
rate_interval quotient period limit =
    let interval = quotient period limit in if ltb interval 1 then 1 else interval

abbrev pub max_duration : ℕ
max_duration = 2 ^ 63 - 1

-- The product stops at the largest duration.
unfoldable pub multiply_duration : ℕ → ℕ → ℕ
multiply_duration duration multiplier =
    if multiplier == 0
    then 0
    else if ltb (max_duration / multiplier) duration
    then max_duration
    else duration * multiplier

-- base, which is the later of the cursor and now, plus the interval
unfoldable pub gcra_next : ℕ → Time → Time → Time
gcra_next interval now at = (if ltb at now then now else at) + interval

-- The count of a cursor is its milliseconds since its window began.
unfoldable pub window_count : ℕ → Time → ℕ
window_count period at = (at - truncate at period) / millisecond

-- A burst that is not set is 1.
unfoldable pub burst_or_one : ℤ → ℕ
burst_or_one burst = if positive burst then pos_part burst else 1

module _ {S : Type 0} (db : CursorStore S) (world : World S) where
  -- The loop of `AcquireRateLimit`, on fuel; `none` is fuel that ran out.
  unfoldable pub gcra_loop : ℕ → String → Time → ℕ → ℕ → S → S × Option Outcome
  unfolding gcra_next
  gcra_loop zero key now interval tolerance s = (s, none)
  gcra_loop (suc round) key now interval tolerance s =
      let (s1, read) = db.get_or_create s (record { id = key; initial_at = now }) in
      elim read [
        | err e ↦ (s1, some (failed (store e)))
        | ok current ↦
            if ltb now (current.at - tolerance)
            then (s1, some (retry_at (current.at - tolerance)))
            else let (s2, written) = db.advance (world.others round s1) (record {
              id = key;
              expected = current.at;
              next = gcra_next interval now current.at;
            }) in
              elim written [
                | err e ↦ (s2, some (failed (store e)))
                | ok true ↦ (s2, some acquired)
                | ok false ↦
                    let again = gcra_loop round key now interval tolerance s2 in
                    if world.is_done round then (s2, some (failed cancelled)) else again
              ]
      ]

  -- The loop of `acquireFixedWindow`. A lost reset of the window goes round again without a look at
  -- the context.
  unfoldable pub window_loop : ℕ → String → Time → ℕ → ℕ → S → S × Option Outcome
  unfolding window_count
  window_loop zero key window period limit s = (s, none)
  window_loop (suc round) key window period limit s =
      let initial = window + millisecond in
      let (s1, read) = db.get_or_create s (record { id = key; initial_at = initial }) in
      elim read [
        | err e ↦ (s1, some (failed (store e)))
        | ok current ↦
            if current.created
            then (s1, some acquired)
            else if not (truncate current.at period == window)
            then (let (s2, written) =
                  db.advance (world.others round s1)
                    (record { id = key; expected = current.at; next = initial }) in
                elim written [
                  | err e ↦ (s2, some (failed (store e)))
                  | ok true ↦ (s2, some acquired)
                  | ok false ↦ window_loop round key window period limit s2
                ])
            else if leb limit (window_count period current.at)
            then (s1, some (retry_at (window + period)))
            else let (s2, written) =
                db.advance (world.others round s1)
                  (record { id = key; expected = current.at; next = current.at + millisecond }) in
              elim written [
                | err e ↦ (s2, some (failed (store e)))
                | ok true ↦ (s2, some acquired)
                | ok false ↦
                    let again = window_loop round key window period limit s2 in
                    if world.is_done round then (s2, some (failed cancelled)) else again
              ]
      ]

  unfoldable pub acquire_fixed_window : ℕ → RateLimitAcquireParams → S → S × Option Outcome
  unfolding window_loop
  acquire_fixed_window fuel params s =
      let period = pos_part params.period in
      if leb (period / millisecond) (pos_part params.limit)
      then (s, some (failed window_too_short))
      else window_loop fuel params.key (truncate params.now period) period (pos_part params.limit) s

  unfoldable pub dispatch : (ℕ → ℕ → ℕ) → ℕ → RateLimitAcquireParams → S → S × Option Outcome
  unfolding gcra_loop acquire_fixed_window
  dispatch quotient fuel params s = elim params.mode [
    | fixed_window ↦ acquire_fixed_window fuel params s
    | other _ ↦ (s, some (failed unknown_mode))
    | gcra ↦
        let interval = rate_interval quotient (pos_part params.period) (pos_part params.limit) in
        gcra_loop fuel params.key params.now interval
          (multiply_duration interval (burst_or_one params.burst - 1)) s
  ]

  -- A store with a primitive of its own is asked for it.
  unfoldable pub acquire_rate_limit :
      Option (RateLimitAcquireParams → S → S × Outcome)
      → (ℕ → ℕ → ℕ)
      → ℕ
      → RateLimitAcquireParams
      → S
      → S × Option Outcome
  unfolding dispatch
  acquire_rate_limit (some native) quotient fuel params s =
      let (s', outcome) = native params s in (s', some outcome)
  acquire_rate_limit none quotient fuel params s =
      if params.key =s= "" || not (positive params.limit) || not (positive params.period)
      then (s, some (failed invalid_parameters))
      else if ltb (pos_part params.limit) (burst_or_one params.burst)
      then (s, some (failed burst_exceeds_limit))
      else dispatch quotient fuel params s
