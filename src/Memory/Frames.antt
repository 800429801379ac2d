-- ===== src/Memory/Frames.antt =====
-- The calls on queues, leases and cursors leave the jobs alone.
use goncordia.Prelude.{◌≡◌, String, arith}
use goncordia.Driver.{
  LeaderElectParams, LeaderResignParams, ScheduleCursorCreateParams, ScheduleCursorAdvanceParams,
}
use goncordia.Memory.State.{Driver, ensure_queue, broadcast_notify}
use goncordia.Memory.Queues.{queue_pause, queue_resume}
use goncordia.Memory.Leases.{
  leader_attempt_elect, leader_resign, schedule_cursor_get_or_create, schedule_cursor_advance,
}
use goncordia.Time.{Time}

module _ (d : Driver) where
  pub jobs-ensure_queue : (name : String) (now : Time) → (ensure_queue name now d).jobs ≡ d.jobs
  unfolding ensure_queue
  jobs-ensure_queue name now = ground arith

  pub jobs-broadcast_notify : (queue : String) → (broadcast_notify queue d).jobs ≡ d.jobs
  unfolding broadcast_notify
  jobs-broadcast_notify queue = ground arith

  pub jobs-queue_pause : (name : String) → (queue_pause d name).jobs ≡ d.jobs
  unfolding queue_pause
  jobs-queue_pause name = ground arith

  pub jobs-queue_resume : (name : String) → (queue_resume d name).jobs ≡ d.jobs
  unfolding queue_resume
  jobs-queue_resume name = ground arith

  pub jobs-leader_attempt_elect :
      (p : LeaderElectParams) → (leader_attempt_elect d p).0.jobs ≡ d.jobs
  unfolding leader_attempt_elect
  jobs-leader_attempt_elect p = ground arith

  pub jobs-leader_resign : (p : LeaderResignParams) → (leader_resign d p).jobs ≡ d.jobs
  unfolding leader_resign
  jobs-leader_resign p = ground arith

  pub jobs-schedule_cursor_get_or_create :
      (p : ScheduleCursorCreateParams) → (schedule_cursor_get_or_create d p).0.jobs ≡ d.jobs
  unfolding schedule_cursor_get_or_create
  jobs-schedule_cursor_get_or_create p = ground arith

  pub jobs-schedule_cursor_advance :
      (p : ScheduleCursorAdvanceParams) → (schedule_cursor_advance d p).0.jobs ≡ d.jobs
  unfolding schedule_cursor_advance
  jobs-schedule_cursor_advance p = ground arith

  pub seq-ensure_queue : (name : String) (now : Time) → (ensure_queue name now d).seq ≡ d.seq
  unfolding ensure_queue
  seq-ensure_queue name now = ground arith

  pub seq-broadcast_notify : (queue : String) → (broadcast_notify queue d).seq ≡ d.seq
  unfolding broadcast_notify
  seq-broadcast_notify queue = ground arith

  pub seq-queue_pause : (name : String) → (queue_pause d name).seq ≡ d.seq
  unfolding queue_pause
  seq-queue_pause name = ground arith

  pub seq-queue_resume : (name : String) → (queue_resume d name).seq ≡ d.seq
  unfolding queue_resume
  seq-queue_resume name = ground arith

  pub seq-leader_attempt_elect : (p : LeaderElectParams) → (leader_attempt_elect d p).0.seq ≡ d.seq
  unfolding leader_attempt_elect
  seq-leader_attempt_elect p = ground arith

  pub seq-leader_resign : (p : LeaderResignParams) → (leader_resign d p).seq ≡ d.seq
  unfolding leader_resign
  seq-leader_resign p = ground arith

  pub seq-schedule_cursor_get_or_create :
      (p : ScheduleCursorCreateParams) → (schedule_cursor_get_or_create d p).0.seq ≡ d.seq
  unfolding schedule_cursor_get_or_create
  seq-schedule_cursor_get_or_create p = ground arith

  pub seq-schedule_cursor_advance :
      (p : ScheduleCursorAdvanceParams) → (schedule_cursor_advance d p).0.seq ≡ d.seq
  unfolding schedule_cursor_advance
  seq-schedule_cursor_advance p = ground arith
