-- ===== src/Core/Retry.antt =====
-- core/retry.go: retry policies and the errors that override them.
use goncordia.Prelude.{
  ℕ, zero, suc, ◌+◌, ◌-◌, ◌*◌, ◌/◌, ◌^◌, ◌≤◌, ◌≡◌, sym, ap, ◌∙◌, inl, inr, min, ltb, leb,
  if◌then◌else◌, Bool, Bool-cases, ℤ, positive, pos_part, String, Option, none, some, arith,
}
use native.Mathlib.Numerals.{unary_clauses}
use goncordia.Time.{Time, add, second, hour}

-- `jitters` is r.Jitter > 0; `scaled` is float64(delay) * factor, rounded down.
pub record ExponentialRetry : Type 0 where
  pub base : ℤ
  pub max : ℤ
  pub jitters : Bool
  pub scaled : ℕ → ℕ

unfoldable pub positive_duration : ℤ → ℕ → ℕ
positive_duration d default = if positive d then pos_part d else default

-- The loop; `rounds` is attempt - 1.
unfoldable pub doubled : ℕ → ℕ → ℕ → ℕ
doubled zero max delay = delay
doubled (suc rounds) max delay =
    let next = doubled rounds max (delay * 2) in
    if ltb delay max then (if ltb (max / 2) delay then max else next) else delay

-- The delay before jitter.
unfoldable pub backoff : ℕ → ℕ → ℕ → ℕ
unfolding doubled
backoff base max attempt =
    let delay = doubled (attempt - 1) max base in if ltb max delay then max else delay

unfoldable pub jittered : ExponentialRetry → ℕ → ℕ → ℕ
jittered r max delay =
    if r.jitters then (if leb max (r.scaled delay) then max else r.scaled delay) else delay

unfoldable pub exponential_delay : ExponentialRetry → ℕ → ℕ
unfolding backoff jittered positive_duration
exponential_delay r attempt =
    let max = positive_duration r.max (24 * hour) in
    jittered r max (backoff (positive_duration r.base second) max attempt)

-- A retry policy: the time of the next attempt, where the zero time means none.
unfoldable pub exponential_next_retry_at : ExponentialRetry → ℕ → Time → Time
unfolding exponential_delay
exponential_next_retry_at r attempt now = now + exponential_delay r attempt

unfoldable pub fixed_next_retry_at : ℤ → ℕ → Time → Time
fixed_next_retry_at delay attempt now = add now delay

unfoldable pub no_retry_next_retry_at : ℕ → Time → Time
no_retry_next_retry_at attempt now = 0

-- A worker's error with the errors it wraps; `panic` is the pool's panicError, with the text of the
-- recovered value and the stack.
pub data JobError : Type 0 where
  plain : String → JobError
  wrapped : String → JobError → JobError
  discard : JobError → JobError
  retry : JobError → Time → ℤ → JobError
  panic : String → String → JobError

-- errors.As walks the chain from the outside.
unfoldable pub as_discard : JobError → Option JobError
as_discard (plain _) = none
as_discard (wrapped _ e) = as_discard e
as_discard (discard e) = some e
as_discard (retry e _ _) = as_discard e
as_discard (panic _ _) = none

unfoldable pub as_retry : JobError → Option (Time × ℤ)
as_retry (plain _) = none
as_retry (wrapped _ e) = as_retry e
as_retry (discard e) = as_retry e
as_retry (retry e at delay) = some (at, delay)
as_retry (panic _ _) = none

-- How a call of a handler ends.
pub data Ending : Type 0 where
  returned : Option JobError → Ending
  panicked : String → String → Ending

twice : (delay rounds : ℕ) → delay * 2 ^ suc rounds ≡ delay * 2 * 2 ^ rounds
twice delay rounds = simp unary_clauses (omega arith)

grows : (delay rounds : ℕ) → delay ≤ delay * 2 ^ rounds
grows delay zero = ground arith
grows delay (suc rounds) = omega (arith, twice delay rounds, grows (delay * 2) rounds)

doubled-min :
    (rounds max delay : ℕ) → min (doubled rounds max delay) max ≡ min (delay * 2 ^ rounds) max
unfolding doubled
doubled-min zero max delay = ground arith
doubled-min (suc rounds) max delay = elim (Bool-cases (ltb delay max)) [
  | inr full ↦ rw full (ground (arith, grows delay (suc rounds), twice delay rounds))
  | inl short ↦ elim (Bool-cases (ltb (max / 2) delay)) [
    | inl half ↦ rw (short, half) (ground (arith, grows (delay * 2) rounds, twice delay rounds))
    | inr less ↦
        rw (short, less)
          (doubled-min rounds max (delay * 2) ∙ ap (λ n. min n max) (sym (twice delay rounds)))
  ]
]

-- The delay before jitter doubles with each attempt after the first and is capped: it is the base
-- times two to the number of earlier attempts, or the maximum where that is less.
pub backoff_lem :
    (base max attempt : ℕ) → backoff base max attempt ≡ min (base * 2 ^ (attempt - 1)) max
unfolding backoff
backoff_lem base max attempt = ground (arith, doubled-min (attempt - 1) max base)
