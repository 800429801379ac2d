-- ===== src/Worker/Settling.antt =====
-- What a processed row becomes in the memory driver, and that a job is not run beyond its attempts.
use goncordia.Prelude.{
  ℕ, ◌≤◌, ◌<◌, ◌≡◌, refl, inl, inr, ◌⊎◌, String, ◌=s=◌, true, false, Option, none, some, List,
  arith, if◌then◌else◌,
}
use goncordia.Prelude.Assoc.{Assoc, lookup}
use goncordia.Time.{Time}
use goncordia.Driver.{JobRow, JobState, JobSetStateParams, available, is_terminal}
use goncordia.Memory.State.{Driver, put_job}
use goncordia.Memory.Claims.{is_claimed_by, yield_row, settle_row}
use goncordia.Memory.Fencing.{transition-held}
use goncordia.Memory.Interfaces.{executor}
use goncordia.Core.Retry.{JobError}
use goncordia.Core.Payload.{WorkerEntry}
use goncordia.Worker.{JobMiddleware, RetryPolicy}
use goncordia.Worker.Running.{Surroundings, effective_max_retry, run_row}
use goncordia.Worker.Outcome.{process_row, settlement, fenced_state_params, set_state}
use goncordia.Worker.Becomes.{
  Becomes, given_back, done, given_up, put_off, outcome_row, settlement-Becomes,
}

-- A transition under a held claim goes through.
pub set_state-held :
    (d : Driver) (row stored : JobRow) (s : JobSetStateParams)
    → lookup row.id d.jobs ≡ some stored
    → is_claimed_by stored row.worker_id row.attempt_num ≡ true
    → (row.worker_id =s= "") ≡ false
    → 0 < row.attempt_num
    → set_state executor (fenced_state_params row s) d ≡ (
      put_job d row.id (
          if s.yields
          then yield_row stored
          else settle_row d.now (fenced_state_params row s) stored),
      none,
    )
unfolding set_state fenced_state_params
set_state-held d row stored s known held named counted =
    let accepted =
      transition-held d stored row.id row.worker_id row.attempt_num known named counted s held in
    rw (accepted) refl

pub attempt-is_claimed_by :
    (stored : JobRow) (worker_id : String) (attempt : ℕ)
    → is_claimed_by stored worker_id attempt ≡ true
    → stored.attempt_num ≡ attempt
unfolding is_claimed_by
attempt-is_claimed_by stored worker_id attempt held = ground arith

-- Each outcome ends the job or leaves it an attempt.
Becomes-attempts :
    {max_retry : ℕ} {policy : RetryPolicy} {around : Surroundings} {row : JobRow}
    {result : Option JobError} {now : Time} {stored final : JobRow} {state : JobState}
    → stored.attempt_num ≡ row.attempt_num
    → 0 < row.attempt_num
    → row.attempt_num ≤ max_retry
    → Becomes max_retry policy around row result now stored state final
    → (is_terminal final.state ≡ true)
      ⊎ ((final.state ≡ available) × (final.attempt_num < max_retry))
unfolding is_terminal
Becomes-attempts same counted within (given_back gone) = inr (refl, omega arith)
Becomes-attempts same counted within (done kept e) = inl refl
Becomes-attempts same counted within (given_up kept e why) = inl refl
Becomes-attempts same counted within (put_off kept e keep left later) = inr (refl, omega arith)

module _ (workers : Assoc WorkerEntry) (middleware : List JobMiddleware) (policy : RetryPolicy)
    (around : Surroundings) (row : JobRow) (d : Driver) (stored : JobRow) where
  -- Where a row's job is running in the memory driver under the claim that the row carries, a named
  -- worker and an attempt counted from 1, to process it puts one row in the place of the job, and
  -- nothing is reported as an error: where the context was lost, the job is available again with the
  -- attempt given back; where the run succeeded, it is completed; where it failed, the failure is
  -- recorded, and the job is discarded for one of the three reasons to give up, or is available
  -- again at the time of its next attempt. The state that is returned says which.
  pub process_row-Becomes :
      lookup row.id d.jobs ≡ some stored
      → is_claimed_by stored row.worker_id row.attempt_num ≡ true
      → (row.worker_id =s= "") ≡ false
      → 0 < row.attempt_num
      → (final : JobRow) × (process_row executor workers middleware policy around row d).0
          ≡ (put_job d row.id final, none)
        × Becomes
            (effective_max_retry workers row)
            policy
            around
            row
            (run_row workers middleware around row)
            d.now
            stored
            (process_row executor workers middleware policy around row d).1.0
            final
  unfolding process_row set_state
  process_row-Becomes known held named counted =
      let max = effective_max_retry workers row in
      let result = run_row workers middleware around row in
      let settled = settlement policy max around.lost around.ended row result in
      (
        outcome_row max policy around row result d.now stored settled,
        set_state-held d row stored settled.params known held named counted,
        settlement-Becomes max policy around row result d.now stored around.lost result refl refl,
      )

  -- Where besides the claim is within the job's effective limit of attempts, the job has ended
  -- afterwards, or is available with an attempt left: it never waits for a run beyond its limit.
  pub process_row-attempts :
      lookup row.id d.jobs ≡ some stored
      → is_claimed_by stored row.worker_id row.attempt_num ≡ true
      → (row.worker_id =s= "") ≡ false
      → 0 < row.attempt_num
      → row.attempt_num ≤ effective_max_retry workers row
      → (final : JobRow) × (process_row executor workers middleware policy around row d).0
          ≡ (put_job d row.id final, none)
        × ((is_terminal final.state ≡ true)
            ⊎ ((final.state ≡ available) × (final.attempt_num < effective_max_retry workers row)))
  process_row-attempts known held named counted within =
      let (final, settled, outcome) = process_row-Becomes known held named counted in
      let same : stored.attempt_num ≡ row.attempt_num =
        attempt-is_claimed_by stored row.worker_id row.attempt_num held in
      (final, settled, Becomes-attempts same counted within outcome)
