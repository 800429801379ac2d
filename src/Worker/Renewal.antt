-- ===== src/Worker/Renewal.antt =====
-- Over the memory driver: a job that is renewed is not rescued.
use goncordia.Prelude.{
  ◌+◌, ◌-◌, ◌<◌, ◌≡◌, refl, ap, ◌∙◌, ℤ, pos, negsuc, positive, pos_part, String, eq_iff, true,
  false, some, List, [], ◌∷◌, arith,
}
use goncordia.Prelude.Assoc.{lookup, lookup-insert, lookup-map_values}
use goncordia.Time.{Time, add, is_zero}
use goncordia.Driver.{JobRow, JobRescueParams, ok}
use goncordia.Memory.State.{Driver, put_job, update_if}
use goncordia.Memory.Claims.{
  is_claimed_by, is_stuck, rescue_row, job_heartbeat, job_rescue_stuck, job_mark_started,
}
use goncordia.Worker.Claimed.{
  JobHeartbeater, JobStartMarker, StuckJobRescuer, heartbeat_params, beat, rescue_stuck,
}

-- The optional interfaces, which the memory driver offers.
abbrev pub heartbeater : JobHeartbeater Driver
heartbeater d p = let (d', renewed) = job_heartbeat d p in (d', ok renewed)

abbrev pub rescuer : StuckJobRescuer Driver
rescuer d p = let (d', rescued) = job_rescue_stuck d p in (d', ok rescued)

abbrev pub marker : JobStartMarker Driver
marker = some (λ d p. let (d', marked) = job_mark_started d p in (d', ok marked))

-- A row whose lease is not over is not rescued.
leased-spared :
    (d : Driver) (params : JobRescueParams) (id : String) (row : JobRow) (lease : Time)
    → lookup id d.jobs ≡ some row
    → row.lease_expires_at ≡ some lease
    → params.at < lease
    → lookup id (job_rescue_stuck d params).0.jobs ≡ some row
unfolding job_rescue_stuck rescue_row is_stuck
leased-spared d params id row lease known leased early =
    let spared : is_stuck params row ≡ false = rw (leased, is_stuck) (ground (arith, early)) in
    lookup-map_values (rescue_row params) id d.jobs ∙ rw (known) (rw (spared, rescue_row) refl)

rescue_stuck-spares :
    (stuck_timeout : ℤ) (now : Time) (queues : List String) (d : Driver) (id : String)
    (row : JobRow) (lease : Time)
    → lookup id d.jobs ≡ some row
    → row.lease_expires_at ≡ some lease
    → now < lease
    → lookup id (rescue_stuck rescuer stuck_timeout now queues d).jobs ≡ some row
unfolding rescue_stuck
rescue_stuck-spares stuck_timeout now [] d id row lease known leased early = known
rescue_stuck-spares stuck_timeout now (queue ∷ queues) d id row lease known leased early =
    let params : JobRescueParams = record {
      queue = queue;
      at = now;
      before = now - pos_part stuck_timeout;
    } in
    rescue_stuck-spares stuck_timeout now queues (job_rescue_stuck d params).0 id row lease
      (leased-spared d params id row lease known leased early) leased early

add-positive :
    (now : Time) (d : ℤ)
    → positive d ≡ true
    → (add now d ≡ now + pos_part d) × (is_zero (add now d) ≡ false)
unfolding add
add-positive now (pos n) h = (refl, ground arith)
add-positive now (negsuc n) h = cc

beat-renews :
    (d : Driver) (row stored : JobRow) (stuck_timeout : ℤ) (now : Time)
    → lookup row.id d.jobs ≡ some stored
    → is_claimed_by stored row.worker_id row.attempt_num ≡ true
    → positive stuck_timeout ≡ true
    → beat heartbeater stuck_timeout row now d ≡ (
      put_job d row.id (record stored { lease_expires_at = some (now + pos_part stuck_timeout) }),
      true,
    )
unfolding beat job_heartbeat heartbeat_params
beat-renews d row stored stuck_timeout now known held enabled =
    let (sum, later) = add-positive now stuck_timeout enabled in
    rw (known, update_if, held, later)
      (ap (λ t. (put_job d row.id (record stored { lease_expires_at = some t }), true)) sum)

-- Where a job is running in the memory driver under the claim that its row carries, a beat of its
-- heartbeat keeps the claim alive, and no rescue over any queues at a time before the end of the
-- timeout, counted from the beat, touches the job: its row is the one from before with the
-- renewed lease.
pub beat-spares :
    (d : Driver) (row stored : JobRow) (stuck_timeout : ℤ) (now at : Time) (queues : List String)
    → lookup row.id d.jobs ≡ some stored
    → is_claimed_by stored row.worker_id row.attempt_num ≡ true
    → positive stuck_timeout ≡ true
    → at < now + pos_part stuck_timeout
    → ((beat heartbeater stuck_timeout row now d).1 ≡ true)
      × (lookup row.id
            (rescue_stuck rescuer stuck_timeout at queues
              (beat heartbeater stuck_timeout row now d).0).jobs
          ≡ some (record stored { lease_expires_at = some (now + pos_part stuck_timeout) }))
beat-spares d row stored stuck_timeout now at queues known held enabled early =
    let renewed = beat-renews d row stored stuck_timeout now known held enabled in
    let row' : JobRow = record stored { lease_expires_at = some (now + pos_part stuck_timeout) } in
    let put : lookup row.id (put_job d row.id row').jobs ≡ some row' =
      lookup-insert row.id row.id row' d.jobs ∙ ground (arith, eq_iff row.id row.id) in
    (
      ap (λ x. x.1) renewed,
      ap (λ x. lookup row.id (rescue_stuck rescuer stuck_timeout at queues x.0).jobs) renewed
          ∙ rescue_stuck-spares stuck_timeout at queues (put_job d row.id row') row.id row'
              (now + pos_part stuck_timeout) put refl early,
    )
