-- ===== src/Memory/Steps.antt =====
-- What every call does to the rows that are there.
use goncordia.Prelude.{
  ◌≡◌, refl, ap, subst, ◌∙◌, String, Bool, true, false, Bool-cases, and_left, Option-cases, Option,
  none, some, inl, inr,
}
use goncordia.Prelude.Assoc.{Assoc, lookup, Distinct}
use goncordia.Driver.{
  JobRow, FetchParams, JobSetStateParams, running, Error, stale_claim, not_found, guarded-ok,
  Result, Result-cases, ok,
}
use goncordia.Memory.State.{Driver, update_if, edit_row}
use goncordia.Time.{Time}
use goncordia.Memory.Claims.{
  renewed_lease, promote, is_candidate, claim, chosen, job_fetch_batch, job_mark_started,
  job_rescue_stuck, job_heartbeat, job_set_state_if_running, set_state_row,
}
use goncordia.Memory.Edits.{cancel_row, job_cancel, job_delete}
use goncordia.Memory.Frames.{
  jobs-queue_pause, jobs-queue_resume, jobs-leader_attempt_elect, jobs-leader_resign,
  jobs-schedule_cursor_get_or_create, jobs-schedule_cursor_advance,
}
use goncordia.Memory.Fetch.{job_fetch_batch-cases, lookup-job_fetch_batch, claimed_or}
use goncordia.Memory.Fetch.Exclusion.{chosen_sound}
use goncordia.Memory.Lifecycle.{
  RowStep, RowStep-refl, RowStep-promote, RowStep-claim-promote, RowStep-rescue_row, RowStep-mark,
  RowStep-renew, RowStep-cancel, RowStep-yield_row, RowStep-settle_row, state_eq→eq,
}
use goncordia.Memory.Rows.{Changed, Rows, Rows-refl, Rows-insert, Rows-erase, Rows-map_values}
use goncordia.Memory.Run.{
  Call, insert, fetch, mark_started, rescue, heartbeat, set_state, cancel, delete, reschedule,
  pause, resume, elect, resign, create_cursor, advance_cursor, tick, after, step,
}
use mathlib.Core.Option

abbrev Steps : Assoc JobRow → Assoc JobRow → Type 0
Steps = Rows RowStep

Changed-fetch :
    (d : Driver) (params : FetchParams) (k : String)
    → Distinct d.jobs
    → (c a : Option JobRow) → lookup k (chosen d params) ≡ c
    → lookup k d.jobs ≡ a
    → Changed RowStep a (claimed_or d.now params c (Option.map (promote params.queue d.now) a))
Changed-fetch d params k h none none e known = tt
Changed-fetch d params k h none (some a) e known = RowStep-promote params.queue d.now a
Changed-fetch d params k h (some j) none e known =
    let sound = chosen_sound d params k j h e in absurd (cc (sound.0, known))
Changed-fetch d params k h (some j) (some a) e known =
    let sound = chosen_sound d params k j h e in
    let same : promote params.queue d.now a ≡ j = cc (sound.0, known) in
    subst (λ r. RowStep a (claim d.now params r)) same
      (RowStep-claim-promote d.now params a (ap (is_candidate params.queue d.now) same ∙ sound.1))

fetch-Steps :
    (d : Driver) (params : FetchParams)
    → Distinct d.jobs
    → Steps d.jobs (job_fetch_batch d params).0.jobs
fetch-Steps d params h = elim (job_fetch_batch-cases d params) [
  | inl e ↦ rw e (Rows-refl RowStep RowStep-refl d.jobs)
  | inr is_open ↦ λ k.
      rw (lookup-job_fetch_batch d params k is_open h)
        (Changed-fetch d params k h (lookup k (chosen d params)) (lookup k d.jobs) refl refl)
]

update_if-Steps :
    (d : Driver) (id : String) (test : JobRow → Bool) (edit : JobRow → JobRow)
    → ((row : JobRow) → RowStep row (edit row))
    → Steps d.jobs (update_if d id test edit).0.jobs
unfolding update_if
update_if-Steps d id test edit keeps = elim (Option-cases (lookup id d.jobs)) [
  | inl e ↦ rw (e, update_if) (Rows-refl RowStep RowStep-refl d.jobs)
  | inr (row, e) ↦ elim (Bool-cases (test row)) [
    | inl allowed ↦
        rw (e, update_if, allowed)
          (Rows-insert RowStep RowStep-refl d.jobs id row (edit row) e (keeps row))
    | inr refused ↦ rw (e, update_if, refused) (Rows-refl RowStep RowStep-refl d.jobs)
  ]
]

pub edit_row-Rows :
    (R : JobRow → JobRow → Type 0)
    → ((row : JobRow) → R row row)
    → (d : Driver) (id : String) (missing : Error) (edit : JobRow → Result JobRow)
    → ((row b : JobRow) → edit row ≡ ok b → R row b)
    → Rows R d.jobs (after d (edit_row d id missing edit)).jobs
unfolding edit_row
edit_row-Rows R R-refl d id missing edit keeps = elim (Option-cases (lookup id d.jobs)) [
  | inl e ↦ rw (e, edit_row) (Rows-refl R R-refl d.jobs)
  | inr (row, e) ↦ elim (Result-cases (edit row)) [
    | inl (x, refused) ↦ rw (e, edit_row, refused) (Rows-refl R R-refl d.jobs)
    | inr (b, done) ↦
        rw (e, edit_row, done) (Rows-insert R R-refl d.jobs id row b e (keeps row b done))
  ]
]

RowStep-set_state_row :
    (now : Time) (params : JobSetStateParams) (row b : JobRow)
    → set_state_row now params row ≡ ok b
    → RowStep row b
unfolding set_state_row
RowStep-set_state_row now params row b h =
    let (allowed, same) = guarded-ok _ _ _ h in
    let busy = state_eq→eq row.state running (and_left _ _ allowed) in
    subst (RowStep row) same (elim (Bool-cases params.yields) [
      | inl y ↦ rw y (RowStep-yield_row row busy)
      | inr n ↦ rw n (RowStep-settle_row now params row busy)
    ])

RowStep-cancel_row : (now : Time) (row b : JobRow) → cancel_row now row ≡ ok b → RowStep row b
unfolding cancel_row
RowStep-cancel_row now row b h =
    let (allowed, same) = guarded-ok _ _ _ h in
    subst (RowStep row) same (RowStep-cancel now row allowed)

delete-Steps : (d : Driver) (id : String) → Steps d.jobs (after d (job_delete d id)).jobs
unfolding job_delete
delete-Steps d id = elim (Option-cases (lookup id d.jobs)) [
  | inl e ↦ rw (e, job_delete) (Rows-refl RowStep RowStep-refl d.jobs)
  | inr (row, e) ↦ rw (e, job_delete) (Rows-erase RowStep RowStep-refl d.jobs id)
]

unchanged-Steps : {m m' : Assoc JobRow} → m' ≡ m → Steps m m'
unchanged-Steps {m} e = rw e (Rows-refl RowStep RowStep-refl m)

-- The calls that neither insert a job nor reschedule one.
abbrev pub only_steps : Call → Bool
only_steps (insert _) = false
only_steps (reschedule _) = false
only_steps _ = true

-- Where the IDs are distinct, every call but an insert and a reschedule moves each row along the
-- lifecycle or deletes it, and adds none.
pub step-Steps :
    (d : Driver) (c : Call)
    → Distinct d.jobs
    → only_steps c ≡ true
    → Rows RowStep d.jobs (step d c).jobs
unfolding step
step-Steps d (insert p) h o = cc
step-Steps d (fetch p) h o = fetch-Steps d p h
step-Steps d (mark_started p) h o =
    unfold job_mark_started in update_if-Steps d p.id _ _ (λ row. RowStep-mark (some p.at) row)
step-Steps d (rescue p) h o =
    unfold job_rescue_stuck in Rows-map_values RowStep _ d.jobs (RowStep-rescue_row p)
step-Steps d (heartbeat p) h o =
    unfold job_heartbeat in
    update_if-Steps d p.id _ _ (λ row. RowStep-renew (some (renewed_lease p)) row)
step-Steps d (set_state p) h o =
    unfold job_set_state_if_running in
    edit_row-Rows RowStep RowStep-refl d p.id stale_claim _ (RowStep-set_state_row d.now p)
step-Steps d (cancel id) h o =
    unfold job_cancel in
    edit_row-Rows RowStep RowStep-refl d id not_found _ (RowStep-cancel_row d.now)
step-Steps d (delete id) h o = delete-Steps d id
step-Steps d (reschedule p) h o = cc
step-Steps d (pause name) h o = unchanged-Steps (jobs-queue_pause d name)
step-Steps d (resume name) h o = unchanged-Steps (jobs-queue_resume d name)
step-Steps d (elect p) h o = unchanged-Steps (jobs-leader_attempt_elect d p)
step-Steps d (resign p) h o = unchanged-Steps (jobs-leader_resign d p)
step-Steps d (create_cursor p) h o = unchanged-Steps (jobs-schedule_cursor_get_or_create d p)
step-Steps d (advance_cursor p) h o = unchanged-Steps (jobs-schedule_cursor_advance d p)
step-Steps d (tick now) h o = Rows-refl RowStep RowStep-refl d.jobs
