-- ===== src/Driver/Executor.antt =====
-- driver/driver.go: the interface `Executor` between the drivers and their clients. `S` is the state
-- of the backend; a call gives the state after it, whether it fails or not.
use goncordia.Prelude.{String, Bool, Option, List}
use goncordia.Time.{Time}
use goncordia.Driver.{
  JobRow, JobInsertParams, JobInsertResult, JobListParams, QueueStats, RescheduleParams,
  LeaderElectParams, LeaderResignParams, FetchParams, JobSetStateParams, ScheduleCursorCreateParams,
  ScheduleCursorResult, ScheduleCursorAdvanceParams, Result,
}

pub record Executor (S : Type 0) : Type 0 where
  pub job_insert_many : S → List JobInsertParams → S × Result (List JobInsertResult)
  pub job_fetch_batch : S → FetchParams → S × Result (List JobRow)
  pub job_set_state_if_running : S → JobSetStateParams → S × Result (Unit {0})
  pub job_get_by_id : S → String → Result (Option JobRow)
  pub job_cancel : S → String → S × Result (Unit {0})
  pub job_delete : S → String → S × Result (Unit {0})
  pub job_reschedule : S → RescheduleParams → S × Result (Unit {0})
  pub leader_attempt_elect : S → LeaderElectParams → S × Result Bool
  pub leader_resign : S → LeaderResignParams → S × Result (Unit {0})
  pub schedule_cursor_get_or_create :
      S → ScheduleCursorCreateParams → S × Result ScheduleCursorResult
  pub schedule_cursor_advance : S → ScheduleCursorAdvanceParams → S × Result Bool
  pub now : S → Time

-- `AdminExecutor`, which a driver may offer besides.
pub record AdminExecutor (S : Type 0) : Type 0 where
  pub job_list : S → JobListParams → Result (List JobRow)
  pub queue_stats : S → String → Result QueueStats
