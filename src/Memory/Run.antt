-- ===== src/Memory/Run.antt =====
-- The calls that change the driver's state, as one step and as histories. `tick` is the injected
-- clock's move between two calls.
use goncordia.Prelude.{String, List, [], ◌∷◌}
use goncordia.Time.{Time}
use goncordia.Driver.{
  JobInsertParams, FetchParams, JobMarkStartedParams, JobRescueParams, JobHeartbeatParams,
  JobSetStateParams, RescheduleParams, LeaderElectParams, LeaderResignParams,
  ScheduleCursorCreateParams, ScheduleCursorAdvanceParams, Result, ok, err,
}
use goncordia.Memory.State.{Driver}
use goncordia.Memory.Jobs.{job_insert_many}
use goncordia.Memory.Claims.{
  job_fetch_batch, job_mark_started, job_rescue_stuck, job_heartbeat, job_set_state_if_running,
}
use goncordia.Memory.Edits.{job_cancel, job_delete, job_reschedule}
use goncordia.Memory.Queues.{queue_pause, queue_resume}
use goncordia.Memory.Leases.{
  leader_attempt_elect, leader_resign, schedule_cursor_get_or_create, schedule_cursor_advance,
}

pub data Call : Type 0 where
  insert : JobInsertParams → Call
  fetch : FetchParams → Call
  mark_started : JobMarkStartedParams → Call
  rescue : JobRescueParams → Call
  heartbeat : JobHeartbeatParams → Call
  set_state : JobSetStateParams → Call
  cancel delete : String → Call
  reschedule : RescheduleParams → Call
  pause resume : String → Call
  elect : LeaderElectParams → Call
  resign : LeaderResignParams → Call
  create_cursor : ScheduleCursorCreateParams → Call
  advance_cursor : ScheduleCursorAdvanceParams → Call
  tick : Time → Call

-- A call that fails leaves the driver as it was.
abbrev pub after : Driver → Result Driver → Driver
after d (ok d') = d'
after d (err e) = d

unfoldable pub step : Driver → Call → Driver
step d (insert p) = (job_insert_many d (p ∷ [])).0
step d (fetch p) = (job_fetch_batch d p).0
step d (mark_started p) = (job_mark_started d p).0
step d (rescue p) = (job_rescue_stuck d p).0
step d (heartbeat p) = (job_heartbeat d p).0
step d (set_state p) = after d (job_set_state_if_running d p)
step d (cancel id) = after d (job_cancel d id)
step d (delete id) = after d (job_delete d id)
step d (reschedule p) = after d (job_reschedule d p)
step d (pause name) = queue_pause d name
step d (resume name) = queue_resume d name
step d (elect p) = (leader_attempt_elect d p).0
step d (resign p) = leader_resign d p
step d (create_cursor p) = (schedule_cursor_get_or_create d p).0
step d (advance_cursor p) = (schedule_cursor_advance d p).0
step d (tick now) = record d { now = now }

unfoldable pub run : Driver → List Call → Driver
run d [] = d
run d (c ∷ cs) = run (step d c) cs
