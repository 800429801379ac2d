-- ===== src/Maintenance.antt =====
-- maintenance.go: bulk actions and the replay of dead letters, over the drivers' interface.
pub mod Bulk
pub mod Retention
use goncordia.Prelude.{
  ℕ, zero, suc, ◌+◌, ◌≡◌, ◌⊎◌, inl, inr, ℤ, pos, negative, positive, pos_part, neg_part, eqb_ℤ,
  sub_ℕ, ltb, ◌==◌, if◌then◌else◌, Bool, true, false, not, ◌||◌, String, ◌=s=◌, Option, none, some,
  List, [], ◌∷◌, ◌++◌, length, last_or,
}
use goncordia.Time.{Time, is_zero, add}
use goncordia.Driver.{
  JobRow, JobState, completed, discarded, cancelled, state_eq, JobListParams, RescheduleParams,
  Error, unsupported, not_found, conflict, Result, ok, err,
}
use goncordia.Driver.Pagination.{Codec, JobCursorV1, encode_job_cursor}
use goncordia.Driver.Executor.{Executor, AdminExecutor}

-- Why an item of a bulk action failed, or the action ended.
pub data BulkError : Type 0 where
  empty_id context_done : BulkError
  action_failed : Error → BulkError

pub record BulkFailure : Type 0 where
  pub id : String
  pub error : BulkError

pub record BulkResult : Type 0 where
  pub succeeded : List String
  pub failed : List BulkFailure

unfoldable pub seen_before : String → List String → Bool
seen_before id [] = false
seen_before id (j ∷ js) = (j =s= id) || seen_before id js

abbrev pub succeed : String → BulkResult → BulkResult
succeed id r = record r { succeeded = id ∷ r.succeeded }

abbrev pub fail : String → BulkError → BulkResult → BulkResult
fail id e r = record r { failed = record { id = id; error = e } ∷ r.failed }

-- The loop of `bulk`. The action is on the state; `is_done` is the context's state before the item
-- after which so many items remain. The second result says that the context ended the loop.
unfoldable pub bulk_from :
    {S : Type 0}
    → (S → String → S × Result (Unit {0}))
    → (ℕ → Bool)
    → List String
    → List String
    → S
    → S × BulkResult × Bool
unfolding seen_before
bulk_from action is_done seen [] s = (s, record { succeeded = []; failed = [] }, false)
bulk_from action is_done seen (id ∷ ids) s =
    let (s', outcome) = action s id in
    let (skip_s, skip_r, skip_done) = bulk_from action is_done seen ids s in
    let (next_s, next_r, next_done) = bulk_from action is_done (id ∷ seen) ids s' in
    if is_done (length ids)
    then (s, record { succeeded = []; failed = [] }, true)
    else if id =s= ""
    then (skip_s, fail "" empty_id skip_r, skip_done)
    else if seen_before id seen
    then (skip_s, skip_r, skip_done)
    else (
      next_s,
      elim outcome [ ok _ ↦ succeed id next_r | err e ↦ fail id (action_failed e) next_r ],
      next_done,
    )

unfoldable pub bulk :
    {S : Type 0}
    → (S → String → S × Result (Unit {0}))
    → (ℕ → Bool)
    → List String
    → S
    → S × BulkResult × Bool
unfolding bulk_from
bulk action is_done ids s = bulk_from action is_done [] ids s

module _ {S : Type 0} (exec : Executor S) (codec : Codec JobCursorV1) (is_done : ℕ → Bool) where
  -- A zero time means now.
  abbrev run_time : S → Time → Time
  run_time s run_at = if is_zero run_at then exec.now s else run_at

  unfoldable pub reschedule_at : Time → S → String → S × Result (Unit {0})
  reschedule_at run_at s id = exec.job_reschedule s (record { id = id; run_at = run_at })

  unfoldable pub bulk_retry : List String → Time → S → S × BulkResult × Bool
  unfolding reschedule_at
  bulk_retry ids run_at s = bulk (reschedule_at (run_time s run_at)) is_done ids s

  unfoldable pub bulk_cancel : List String → S → S × BulkResult × Bool
  bulk_cancel ids s = bulk exec.job_cancel is_done ids s

  unfoldable pub bulk_delete : List String → S → S × BulkResult × Bool
  bulk_delete ids s = bulk exec.job_delete is_done ids s

  -- Only a discarded job is replayed.
  unfoldable pub replay_at : Time → S → String → S × Result (Unit {0})
  unfolding reschedule_at state_eq
  replay_at run_at s id = elim (exec.job_get_by_id s id) [
    | err e ↦ (s, err e)
    | ok none ↦ (s, err not_found)
    | ok (some row) ↦
        if state_eq row.state discarded then reschedule_at run_at s id else (s, err conflict)
  ]

  unfoldable pub dead_letter_replay : List String → Time → S → S × BulkResult × Bool
  unfolding replay_at
  dead_letter_replay ids run_at s = bulk (replay_at (run_time s run_at)) is_done ids s
