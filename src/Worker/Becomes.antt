-- ===== src/Worker/Becomes.antt =====
-- What a processed row's job may become, and that the outcome of a run is one of these.
use goncordia.Prelude.{
  ℕ, ◌-◌, ◌≤◌, ◌<◌, ◌≡◌, refl, sym, subst, inl, inr, ◌⊎◌, true, false, leb, Bool-cases,
  Option-cases, Option, none, some, [], ◌∷◌, ◌++◌, arith, if◌then◌else◌,
}
use goncordia.Time.{Time, is_zero}
use goncordia.Driver.{JobRow, JobState, available, completed, discarded, AttemptError}
use goncordia.Memory.Claims.{text_or, yield_row, settle_row}
use goncordia.Core.Retry.{JobError, as_discard}
use goncordia.Worker.{RetryPolicy}
use goncordia.Worker.Running.{Surroundings}
use goncordia.Worker.Outcome.{
  Settlement, settlement, settle_error, discarding, retrying, yielding, fenced_state_params,
  retry_time, error_text, panic_trace,
}

-- The record of a failed attempt.
abbrev pub attempt_error : Time → JobRow → JobError → AttemptError
attempt_error now stored e = record {
  at = now;
  attempt = stored.attempt_num;
  error = error_text e;
  trace = text_or (panic_trace e) "";
}

module _ (max_retry : ℕ) (policy : RetryPolicy) (around : Surroundings) (row : JobRow)
    (result : Option JobError) (now : Time) (stored : JobRow) where
  -- A reason to give a failed job up.
  abbrev pub GivesUp : JobError → Type 0
  GivesUp e =
      ((cause : JobError) × (as_discard e ≡ some cause))
      ⊎ (max_retry ≤ row.attempt_num)
      ⊎ (is_zero (retry_time policy around.ended row e) ≡ true)

  -- What the stored job may become, with the state that is reported.
  pub data Becomes : JobState → JobRow → Type 0 where
    given_back :
        {cause : JobError}
        → around.lost ≡ some cause
        → Becomes available (record stored {
          state = available;
          attempt_num = stored.attempt_num - 1;
          attempted_at = none;
          lease_expires_at = none;
          worker_id = "";
        })
    done :
        around.lost ≡ none
        → result ≡ none
        → Becomes completed (record stored {
          state = completed;
          finalized_at = some now;
          lease_expires_at = none;
          worker_id = "";
        })
    given_up :
        {e : JobError}
        → around.lost ≡ none
        → result ≡ some e
        → GivesUp e
        → Becomes discarded (record stored {
          state = discarded;
          finalized_at = some now;
          lease_expires_at = none;
          worker_id = "";
          errors = stored.errors ++ attempt_error now stored e ∷ [];
        })
    put_off :
        {e : JobError}
        → around.lost ≡ none
        → result ≡ some e
        → as_discard e ≡ none
        → row.attempt_num < max_retry
        → is_zero (retry_time policy around.ended row e) ≡ false
        → Becomes JobState.retryable (record stored {
          state = available;
          run_at = retry_time policy around.ended row e;
          lease_expires_at = none;
          worker_id = "";
          errors = stored.errors ++ attempt_error now stored e ∷ [];
        })

  abbrev pub outcome_row : Settlement → JobRow
  outcome_row s =
      if s.params.yields
      then yield_row stored
      else settle_row now (fenced_state_params row s.params) stored

  abbrev Reported : Settlement → Type 0
  Reported s = Becomes s.state (outcome_row s)

  discard-Becomes :
      (e : JobError)
      → around.lost ≡ none
      → result ≡ some e
      → GivesUp e
      → Reported (record { params = discarding row e; state = discarded; error = some e })
  unfolding settle_row discarding fenced_state_params
  discard-Becomes e kept failed why = given_up kept failed why

  retry-Becomes :
      (e : JobError) (at : Time)
      → is_zero at ≡ false
      → outcome_row
          (record { params = retrying row e at; state = JobState.retryable; error = some e })
        ≡ record stored {
          state = available;
          run_at = at;
          lease_expires_at = none;
          worker_id = "";
          errors = stored.errors ++ attempt_error now stored e ∷ [];
        }
  unfolding settle_row retrying fenced_state_params
  retry-Becomes e at later = rw (later) refl

  abbrev gave_up : JobError → Settlement
  gave_up e = record { params = discarding row e; state = discarded; error = some e }

  error-Becomes :
      (e : JobError)
      → around.lost ≡ none
      → result ≡ some e
      → Reported (settle_error policy max_retry around.ended row e)
  unfolding settle_error settle_row retrying fenced_state_params
  error-Becomes e kept failed = elim (Option-cases (as_discard e)) [
    | inr (cause, drop) ↦
        let same : settle_error policy max_retry around.ended row e ≡ gave_up e =
          rw (drop, settle_error) refl in
        subst Reported (sym same) (discard-Becomes e kept failed (inl (cause, drop)))
    | inl keep ↦ elim (Bool-cases (leb max_retry row.attempt_num)) [
      | inl spent ↦
          let same : settle_error policy max_retry around.ended row e ≡ gave_up e =
            rw (keep, settle_error, spent) refl in
          subst Reported (sym same) (discard-Becomes e kept failed (inr (inl (ground arith))))
      | inr left ↦ elim (Bool-cases (is_zero (retry_time policy around.ended row e))) [
        | inl never ↦
            let same : settle_error policy max_retry around.ended row e ≡ gave_up e =
              rw (keep, settle_error, left, never) refl in
            subst Reported (sym same) (discard-Becomes e kept failed (inr (inr never)))
        | inr later ↦
            let at = retry_time policy around.ended row e in
            let same : settle_error policy max_retry around.ended row e ≡ record {
              params = retrying row e at;
              state = JobState.retryable;
              error = some e;
            } =
              rw (keep, settle_error, left, later) refl in
            subst Reported (sym same) (
              subst (Becomes JobState.retryable) (sym (retry-Becomes e at later))
                (put_off kept failed keep (ground arith) later))
      ]
    ]
  ]

  pub settlement-Becomes :
      (lost : Option JobError) (r : Option JobError)
      → around.lost ≡ lost
      → result ≡ r
      → Reported (settlement policy max_retry lost around.ended row r)
  unfolding settlement yielding yield_row settle_row fenced_state_params
  settlement-Becomes (some cause) r gone e = given_back gone
  settlement-Becomes none none kept e = done kept e
  settlement-Becomes none (some e) kept failed = error-Becomes e kept failed
