-- ===== src/Memory/Edits.antt =====
-- driver/memory/memory.go: what an operator may do to a job: cancel, delete, reschedule.
use goncordia.Prelude.{String, ◌||◌, if◌then◌else◌, none, some}
use goncordia.Prelude.Assoc.{lookup, erase}
use goncordia.Time.{Time}
use goncordia.Driver.{
  JobRow, RescheduleParams, available, scheduled, cancelled, Result, ok, err, not_found, conflict,
  state_eq,
}
use goncordia.Memory.State.{Driver, edit_row}

-- Only a job that waits can be cancelled.
unfoldable pub cancel_row : Time → JobRow → Result JobRow
unfolding state_eq
cancel_row now row =
    if state_eq row.state available || state_eq row.state scheduled
    then ok (record row { state = cancelled; finalized_at = some now })
    else err conflict

unfoldable pub job_cancel : Driver → String → Result Driver
unfolding cancel_row edit_row
job_cancel d id = edit_row d id not_found (cancel_row d.now)

unfoldable pub job_delete : Driver → String → Result Driver
job_delete d id = elim (lookup id d.jobs) [
  | none ↦ err not_found
  | some _ ↦ ok (record d { jobs = erase id d.jobs })
]

abbrev pub reschedule_row : RescheduleParams → JobRow → JobRow
reschedule_row params row = record row { run_at = params.run_at; state = scheduled }

unfoldable pub job_reschedule : Driver → RescheduleParams → Result Driver
unfolding edit_row
job_reschedule d params = edit_row d params.id not_found (λ row. ok (reschedule_row params row))
