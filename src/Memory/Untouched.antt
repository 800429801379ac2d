-- ===== src/Memory/Untouched.antt =====
-- The calls other than an election or a resignation leave the leases alone.
use goncordia.Prelude.{◌≡◌, Bool, true, false, arith}
use goncordia.Memory.State.{Driver, ensure_queue, broadcast_notify}
use goncordia.Memory.Jobs.{job_insert, job_insert_many}
use goncordia.Memory.Claims.{
  job_fetch_batch, job_mark_started, job_rescue_stuck, job_heartbeat, job_set_state_if_running,
}
use goncordia.Memory.Edits.{job_cancel, job_delete, job_reschedule}
use goncordia.Memory.Queues.{queue_pause, queue_resume}
use goncordia.Memory.Leases.{schedule_cursor_get_or_create, schedule_cursor_advance}
use goncordia.Memory.Run.{Call, elect, resign, step}

abbrev pub is_lease_call : Call → Bool
is_lease_call (elect _) = true
is_lease_call (resign _) = true
is_lease_call _ = false

pub leaders-step :
    (d : Driver) (c : Call) → is_lease_call c ≡ false → (step d c).leaders ≡ d.leaders
unfolding step job_insert_many job_insert ensure_queue broadcast_notify job_fetch_batch
    job_mark_started job_rescue_stuck job_heartbeat job_set_state_if_running job_cancel job_delete
    job_reschedule queue_pause queue_resume schedule_cursor_get_or_create schedule_cursor_advance
leaders-step d (elect p) h = cc
leaders-step d (resign p) h = cc
leaders-step d c h = ground arith
