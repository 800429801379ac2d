-- ===== src/Worker/Settled.antt =====
-- Over the memory driver: a claimed job that its pool runs or gives back has ended or has an attempt
-- left.
use goncordia.Prelude.{
  ℕ, ◌≤◌, ◌<◌, ◌≡◌, refl, sym, ap, subst, ◌∙◌, inl, inr, ◌⊎◌, String, ◌=s=◌, eq_iff, true, false,
  Option, none, some, List, Bool-cases, arith,
}
use goncordia.Prelude.Assoc.{Assoc, lookup, lookup-insert}
use goncordia.Time.{Time}
use goncordia.Driver.{JobRow, Error, available, is_terminal}
use goncordia.Memory.State.{Driver, put_job, update_if}
use goncordia.Memory.Claims.{is_claimed_by, job_mark_started, yield_row}
use goncordia.Memory.Interfaces.{executor}
use goncordia.Core.Payload.{WorkerEntry}
use goncordia.Worker.{JobMiddleware, RetryPolicy}
use goncordia.Worker.Running.{Surroundings, effective_max_retry}
use goncordia.Worker.Outcome.{process_row, yielding}
use goncordia.Worker.Settling.{process_row-attempts, set_state-held, attempt-is_claimed_by}
use goncordia.Worker.Claimed.{Stages, passes, mark_started, run_claimed}
use goncordia.Worker.Renewal.{marker}

-- What a call leaves of every other job.
abbrev pub IsKept : String → Driver → Driver → Type 0
IsKept id d d' =
    (other : String) → (id =s= other) ≡ false → lookup other d'.jobs ≡ lookup other d.jobs

put-lookup :
    (d : Driver) (id : String) (row : JobRow)
    → (lookup id (put_job d id row).jobs ≡ some row) × IsKept id d (put_job d id row)
put-lookup d id row = (
  lookup-insert id id row d.jobs ∙ ground (arith, eq_iff id id),
  λ other apart. lookup-insert id other row d.jobs ∙ ground (arith, apart),
)

mark-held :
    (d : Driver) (row stored : JobRow) (at : Time)
    → lookup row.id d.jobs ≡ some stored
    → is_claimed_by stored row.worker_id row.attempt_num ≡ true
    → mark_started marker at row d ≡ (
      put_job d row.id (record stored { started_at = some at }),
      record row { started_at = some at },
    )
unfolding mark_started job_mark_started
mark-held d row stored at known held = rw (known, update_if, held) refl

-- The job of an ID has ended or has an attempt left, nothing is reported, and no other job is changed.
abbrev pub IsSettled : ℕ → String → Driver → Driver × Option Error → Type 0
IsSettled max_retry id d (d', reported) =
    (final : JobRow) × (lookup id d'.jobs ≡ some final)
    × IsKept id d d'
    × (reported ≡ none)
    × ((is_terminal final.state ≡ true)
        ⊎ ((final.state ≡ available) × (final.attempt_num < max_retry)))

put-IsSettled :
    (max_retry : ℕ) (id : String) (d : Driver) (final : JobRow)
    → ((is_terminal final.state ≡ true)
        ⊎ ((final.state ≡ available) × (final.attempt_num < max_retry)))
    → IsSettled max_retry id d (put_job d id final, none)
put-IsSettled max_retry id d final left =
    (final, (put-lookup d id final).0, (put-lookup d id final).1, refl, left)

-- What was settled after another edit of the same job.
after-IsSettled :
    (max_retry : ℕ) (id : String) (d : Driver) (row : JobRow) (x : Driver × Option Error)
    → IsSettled max_retry id (put_job d id row) x
    → IsSettled max_retry id d x
after-IsSettled max_retry id d row x (final, found, kept, quiet, left) = (
  final,
  found,
  (λ other apart. kept other apart ∙ (put-lookup d id row).1 other apart),
  quiet,
  left,
)

module _ (workers : Assoc WorkerEntry) (middleware : List JobMiddleware) (policy : RetryPolicy)
    (stages : Stages) (around : Surroundings) (row : JobRow) (d : Driver) (stored : JobRow) where
  yielded-IsSettled :
      stored.attempt_num ≡ row.attempt_num
      → 0 < row.attempt_num
      → row.attempt_num ≤ effective_max_retry workers row
      → IsSettled
          (effective_max_retry workers row)
          row.id
          d
          (put_job d row.id (yield_row stored), none)
  unfolding yield_row
  yielded-IsSettled same counted within =
      put-IsSettled (effective_max_retry workers row) row.id d (yield_row stored)
        (inr (refl, omega arith))

  -- Where a claimed row's job is running in the memory driver under the claim that the row carries, a
  -- named worker and an attempt counted from 1 within the job's effective limit, then whatever comes
  -- of the waits, the run and the context, the job has ended afterwards or is available with an attempt
  -- left, nothing is reported as an error, and no other job is changed.
  pub run_claimed-IsSettled :
      lookup row.id d.jobs ≡ some stored
      → is_claimed_by stored row.worker_id row.attempt_num ≡ true
      → (row.worker_id =s= "") ≡ false
      → 0 < row.attempt_num
      → row.attempt_num ≤ effective_max_retry workers row
      → IsSettled
          (effective_max_retry workers row)
          row.id
          d
          (run_claimed executor marker workers middleware policy stages around row d)
  unfolding run_claimed yielding effective_max_retry is_claimed_by
  run_claimed-IsSettled known held named counted within = elim (Bool-cases (passes stages)) [
    | inr stopped ↦
        let back : run_claimed executor marker workers middleware policy stages around row d
            ≡ (put_job d row.id (yield_row stored), none) =
          rw (stopped, run_claimed) refl
          ∙ set_state-held d row stored yielding known held named counted in
        subst (IsSettled (effective_max_retry workers row) row.id d) (sym back) (
          yielded-IsSettled (attempt-is_claimed_by stored row.worker_id row.attempt_num held)
            counted within)
    | inl through ↦
        let row' : JobRow = record row { started_at = some around.started } in
        let stored' : JobRow = record stored { started_at = some around.started } in
        let d' = put_job d row.id stored' in
        let marked = mark-held d row stored around.started known held in
        let run : run_claimed executor marker workers middleware policy stages around row d
            ≡ (process_row executor workers middleware policy around row' d').0 =
          rw (through, run_claimed)
            (ap (λ m. (process_row executor workers middleware policy around m.1 m.0).0) marked) in
        let (final, settled, left) =
          process_row-attempts workers middleware policy around row' d' stored'
            (put-lookup d row.id stored').0 held named counted within in
        subst (IsSettled (effective_max_retry workers row) row.id d) (sym (run ∙ settled)) (
          after-IsSettled (effective_max_retry workers row) row.id d stored'
            (put_job d' row.id final, none)
            (put-IsSettled (effective_max_retry workers row) row.id d' final left))
  ]
