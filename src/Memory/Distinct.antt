-- ===== src/Memory/Distinct.antt =====
-- Every call keeps the IDs distinct, and only an insert moves the sequence number.
use goncordia.Prelude.{
  ◌≡◌, refl, String, Bool, true, false, Bool-cases, Option-cases, inl, inr, arith, [], ◌∷◌,
}
use goncordia.Prelude.Assoc.{
  Assoc, lookup, insert, Distinct, insert-Distinct, erase-Distinct, map_values-Distinct,
}
use goncordia.Time.{Time}
use goncordia.Driver.{JobRow, FetchParams, not_found, Error, Result, ok, Result-cases}
use goncordia.Memory.State.{Driver, update_if, edit_row}
use goncordia.Memory.Claims.{
  claim, claim_all, fetch_open, job_fetch_batch, job_mark_started, job_rescue_stuck, job_heartbeat,
  job_set_state_if_running,
}
use goncordia.Memory.Edits.{job_cancel, job_delete, job_reschedule, reschedule_row}
use goncordia.Memory.Fetch.{job_fetch_batch-cases, job_fetch_batch_open, promoted-Distinct}
use goncordia.Memory.Frames
use goncordia.Memory.Run.{
  Call, insert as insert_call, fetch, mark_started, rescue, heartbeat, set_state, cancel, delete,
  reschedule, pause, resume, elect, resign, create_cursor, advance_cursor, tick, after, step,
}

claim_all-Distinct :
    (now : Time) (params : FetchParams) (es m : Assoc JobRow)
    → Distinct m
    → Distinct (claim_all now params es m).0
unfolding claim_all
claim_all-Distinct now params [] m h = h
claim_all-Distinct now params ((k, j) ∷ es) m h =
    claim_all-Distinct now params es (insert k (claim now params j) m)
      (insert-Distinct k (claim now params j) m h)

pub fetch-Distinct :
    (d : Driver) (params : FetchParams)
    → Distinct d.jobs
    → Distinct (job_fetch_batch d params).0.jobs
unfolding fetch_open
fetch-Distinct d params h = elim (job_fetch_batch-cases d params) [
  | inl e ↦ rw e h
  | inr is_open ↦
      rw (job_fetch_batch_open d params is_open)
        (claim_all-Distinct d.now params _ _ (promoted-Distinct d params.queue h))
]

update_if-Distinct :
    (d : Driver) (id : String) (test : JobRow → Bool) (edit : JobRow → JobRow)
    → Distinct d.jobs
    → Distinct (update_if d id test edit).0.jobs
unfolding update_if
update_if-Distinct d id test edit h = elim (Option-cases (lookup id d.jobs)) [
  | inl e ↦ rw (e, update_if) h
  | inr (row, e) ↦ elim (Bool-cases (test row)) [
    | inl allowed ↦ rw (e, update_if, allowed) (insert-Distinct id (edit row) d.jobs h)
    | inr refused ↦ rw (e, update_if, refused) h
  ]
]

edit_row-Distinct :
    (d : Driver) (id : String) (missing : Error) (edit : JobRow → Result JobRow)
    → Distinct d.jobs
    → Distinct (after d (edit_row d id missing edit)).jobs
unfolding edit_row
edit_row-Distinct d id missing edit h = elim (Option-cases (lookup id d.jobs)) [
  | inl e ↦ rw (e, edit_row) h
  | inr (row, e) ↦ elim (Result-cases (edit row)) [
    | inl (x, refused) ↦ rw (e, edit_row, refused) h
    | inr (b, done) ↦ rw (e, edit_row, done) (insert-Distinct id b d.jobs h)
  ]
]

delete-Distinct :
    (d : Driver) (id : String) → Distinct d.jobs → Distinct (after d (job_delete d id)).jobs
unfolding job_delete
delete-Distinct d id h = elim (Option-cases (lookup id d.jobs)) [
  | inl e ↦ rw (e, job_delete) h
  | inr (row, e) ↦ rw (e, job_delete) (erase-Distinct id d.jobs h)
]

abbrev pub is_insert : Call → Bool
is_insert (insert_call _) = true
is_insert _ = false

pub step-Distinct :
    (d : Driver) (c : Call) → is_insert c ≡ false → Distinct d.jobs → Distinct (step d c).jobs
unfolding step job_mark_started job_rescue_stuck job_heartbeat job_set_state_if_running job_cancel
    job_reschedule
step-Distinct d (insert_call p) i h = cc
step-Distinct d (fetch p) i h = fetch-Distinct d p h
step-Distinct d (mark_started p) i h = update_if-Distinct d p.id _ _ h
step-Distinct d (rescue p) i h = map_values-Distinct _ d.jobs h
step-Distinct d (heartbeat p) i h = update_if-Distinct d p.id _ _ h
step-Distinct d (set_state p) i h = edit_row-Distinct d p.id _ _ h
step-Distinct d (cancel id) i h = edit_row-Distinct d id _ _ h
step-Distinct d (delete id) i h = delete-Distinct d id h
step-Distinct d (reschedule p) i h =
    edit_row-Distinct d p.id not_found (λ row. ok (reschedule_row p row)) h
step-Distinct d (pause name) i h = rw (Frames.jobs-queue_pause d name) h
step-Distinct d (resume name) i h = rw (Frames.jobs-queue_resume d name) h
step-Distinct d (elect p) i h = rw (Frames.jobs-leader_attempt_elect d p) h
step-Distinct d (resign p) i h = rw (Frames.jobs-leader_resign d p) h
step-Distinct d (create_cursor p) i h = rw (Frames.jobs-schedule_cursor_get_or_create d p) h
step-Distinct d (advance_cursor p) i h = rw (Frames.jobs-schedule_cursor_advance d p) h
step-Distinct d (tick now) i h = h

pub seq-step : (d : Driver) (c : Call) → is_insert c ≡ false → (step d c).seq ≡ d.seq
unfolding step job_fetch_batch job_mark_started job_rescue_stuck job_heartbeat
    job_set_state_if_running job_cancel job_delete job_reschedule
seq-step d (insert_call p) i = cc
seq-step d (fetch p) i = ground arith
seq-step d (mark_started p) i = ground arith
seq-step d (rescue p) i = ground arith
seq-step d (heartbeat p) i = ground arith
seq-step d (set_state p) i = ground arith
seq-step d (cancel id) i = ground arith
seq-step d (delete id) i = ground arith
seq-step d (reschedule p) i = ground arith
seq-step d (pause name) i = Frames.seq-queue_pause d name
seq-step d (resume name) i = Frames.seq-queue_resume d name
seq-step d (elect p) i = Frames.seq-leader_attempt_elect d p
seq-step d (resign p) i = Frames.seq-leader_resign d p
seq-step d (create_cursor p) i = Frames.seq-schedule_cursor_get_or_create d p
seq-step d (advance_cursor p) i = Frames.seq-schedule_cursor_advance d p
seq-step d (tick now) i = refl
