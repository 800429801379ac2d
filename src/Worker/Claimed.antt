-- ===== src/Worker/Claimed.antt =====
-- worker.go: what the goroutine of a claimed job does, stage by stage, and its heartbeat. The observer's
-- events are left out.
use goncordia.Prelude.{
  ℕ, ◌-◌, ℤ, positive, pos_part, String, Bool, true, false, ◌&&◌, if◌then◌else◌, Option, none, some,
  List, [], ◌∷◌,
}
use goncordia.Prelude.Assoc.{Assoc, lookup, insert}
use goncordia.Time.{Time, add}
use goncordia.Driver.{
  JobRow, JobMarkStartedParams, JobHeartbeatParams, JobRescueParams, Error, Result, ok, err,
}
use goncordia.Driver.Executor.{Executor}
use goncordia.Core.Payload.{WorkerEntry, opts_of}
use goncordia.Worker.{JobMiddleware, RetryPolicy}
use goncordia.Worker.Running.{Surroundings}
use goncordia.Worker.Outcome.{process_row, set_state, fenced_state_params, yielding}

-- What comes of each wait before the handler, in the order of the waits: the turn in the pipeline, the
-- pipeline's lease, the permits by key, the rate gate, the slot of the kind, the slot of the pool, and
-- the rate permit.
pub record Stages : Type 0 where
  pub turn : Bool
  pub lease : Bool
  pub keys : Bool
  pub rate_gate : Bool
  pub kind_slot : Bool
  pub slot : Bool
  pub permit : Bool

unfoldable pub passes : Stages → Bool
passes w = w.turn && w.lease && w.keys && w.rate_gate && w.kind_slot && w.slot && w.permit

-- The optional interfaces of an executor.
abbrev pub JobStartMarker : Type 0 → Type 0
JobStartMarker S = Option (S → JobMarkStartedParams → S × Result Bool)

abbrev pub JobHeartbeater : Type 0 → Type 0
JobHeartbeater S = S → JobHeartbeatParams → S × Result Bool

abbrev pub StuckJobRescuer : Type 0 → Type 0
StuckJobRescuer S = S → JobRescueParams → S × Result ℕ

abbrev pub started_row : JobRow → Time → Result Bool → JobRow
started_row row at (ok true) = record row { started_at = some at }
started_row row at _ = row

-- A driver without the mark is not asked; an error is reported, and the job runs all the same.
unfoldable pub mark_started : {S : Type 0} → JobStartMarker S → Time → JobRow → S → S × JobRow
mark_started none at row s = (s, row)
mark_started (some mark) at row s =
    let (s', marked) =
      mark s
        (record { id = row.id; worker_id = row.worker_id; attempt = row.attempt_num; at = at }) in
    (s', started_row row at marked)

-- A job that does not get through its waits is given back; else its handler runs. The result is the
-- backend with the error that is reported.
unfoldable pub run_claimed :
    {S : Type 0}
    → Executor S
    → JobStartMarker S
    → Assoc WorkerEntry
    → List JobMiddleware
    → RetryPolicy
    → Stages
    → Surroundings
    → JobRow
    → S
    → S × Option Error
unfolding passes mark_started
run_claimed exec marker workers middleware policy stages around row s =
    let (s', row') = mark_started marker around.started row s in
    if passes stages
    then (process_row exec workers middleware policy around row' s').0
    else set_state exec (fenced_state_params row yielding) s

-- One beat of the heartbeat: whether the claim goes on. An error is reported, and the next beat tries
-- again.
unfoldable pub heartbeat_params : ℤ → JobRow → Time → JobHeartbeatParams
heartbeat_params stuck_timeout row now = record {
  id = row.id;
  worker_id = row.worker_id;
  attempt = row.attempt_num;
  at = now;
  lease_expires_at = add now stuck_timeout;
}

unfoldable pub beat : {S : Type 0} → JobHeartbeater S → ℤ → JobRow → Time → S → S × Bool
unfolding heartbeat_params
beat heartbeat stuck_timeout row now s =
    let (s', renewed) = heartbeat s (heartbeat_params stuck_timeout row now) in
    (s', elim renewed [ ok r ↦ r | err _ ↦ true ])

-- The ticks of the heartbeat, with what happens to the backend before each; the result tells whether
-- the claim's context is still alive.
unfoldable pub heartbeats :
    {S : Type 0} → JobHeartbeater S → ℤ → JobRow → List (Time × (S → S)) → S → S × Bool
unfolding beat
heartbeats heartbeat stuck_timeout row [] s = (s, true)
heartbeats heartbeat stuck_timeout row ((now, others) ∷ ticks) s =
    let (s', alive) = beat heartbeat stuck_timeout row now (others s) in
    let rest = heartbeats heartbeat stuck_timeout row ticks s' in
    if alive then rest else (s', false)

-- `rescueStuck`, over the pool's queues.
unfoldable pub rescue_stuck : {S : Type 0} → StuckJobRescuer S → ℤ → Time → List String → S → S
rescue_stuck rescue stuck_timeout now [] s = s
rescue_stuck rescue stuck_timeout now (queue ∷ queues) s =
    rescue_stuck rescue stuck_timeout now queues
      (rescue s (record { queue = queue; at = now; before = now - pos_part stuck_timeout })).0

-- The semaphore of a kind is made once, with the concurrency of the kind's worker; `none` is no limit.
unfoldable pub kind_semaphore : Assoc WorkerEntry → String → Assoc ℕ → Assoc ℕ × Option ℕ
unfolding opts_of
kind_semaphore workers kind semaphores = elim (opts_of workers kind) [
  | none ↦ (semaphores, none)
  | some opts ↦
      if positive opts.concurrency
      then elim (lookup kind semaphores) [
        | some capacity ↦ (semaphores, some capacity)
        | none ↦
            (insert kind (pos_part opts.concurrency) semaphores, some (pos_part opts.concurrency))
      ]
      else (semaphores, none)
]
