-- ===== src/Memory/Fencing.antt =====
-- A worker that has lost its claim cannot touch the job: the fenced calls refuse.
use goncordia.Prelude.{
  ℕ, ◌+◌, length, Option, none, ◌⊎◌, ◌<◌, ◌≡◌, refl, ◌∙◌, String, ◌=s=◌, eq_iff, true, false, some,
  arith, pos, ◌&&◌, if◌then◌else◌,
}
use goncordia.Prelude.Assoc.{lookup, lookup-map_values}
use goncordia.Time.{Time, is_zero}
use goncordia.Driver.{
  JobRow, JobMarkStartedParams, JobHeartbeatParams, JobSetStateParams, JobRescueParams, ok, err,
  stale_claim, matches_claim, state_eq, running, available, retryable, is_terminal,
}
use goncordia.Memory.State.{Driver, put_job, update_if, edit_row}
use goncordia.Memory.Claims.{
  is_claimed_by, job_mark_started, job_heartbeat, set_state_row, job_set_state_if_running, is_stuck,
  rescue_row, job_rescue_stuck, release, yield_row, settle_row,
}

-- A state transition with the fences of one claim.
abbrev pub fenced : JobSetStateParams → String → String → ℕ → JobSetStateParams
fenced s id worker_id attempt = record s {
  id = id;
  expected_worker_id = worker_id;
  expected_attempt = pos attempt;
}

abbrev pub mark_of : String → String → ℕ → Time → JobMarkStartedParams
mark_of id worker_id attempt at = record {
  id = id;
  worker_id = worker_id;
  attempt = attempt;
  at = at;
}

abbrev pub heartbeat_of : String → String → ℕ → Time → Time → JobHeartbeatParams
heartbeat_of id worker_id attempt at lease = record {
  id = id;
  worker_id = worker_id;
  attempt = attempt;
  at = at;
  lease_expires_at = lease;
}

matches-is_claimed_by :
    (row : JobRow) (s : JobSetStateParams) (id worker_id : String) (attempt : ℕ)
    → (worker_id =s= "") ≡ false
    → 0 < attempt
    → (state_eq row.state running
        && matches_claim (fenced s id worker_id attempt) row.worker_id row.attempt_num)
      ≡ is_claimed_by row worker_id attempt
unfolding matches_claim is_claimed_by
matches-is_claimed_by row s id worker_id attempt named counted =
    ground (arith, eq_iff worker_id row.worker_id, eq_iff row.worker_id worker_id)

-- What no transition changes.
abbrev pub IsSameJob : JobRow → JobRow → Type 0
IsSameJob row final =
    (final.id ≡ row.id)
    × (final.queue ≡ row.queue)
    × (final.kind ≡ row.kind)
    × (final.args ≡ row.args)
    × (final.unique_key ≡ row.unique_key)
    × (final.max_retry ≡ row.max_retry)

-- One error for an error that is given.
abbrev pub added : Option String → ℕ
added none = 0
added (some _) = 1

-- The row that a transition asks for.
abbrev pub IsAnswer : Time → JobSetStateParams → JobRow → JobRow → Type 0
IsAnswer now s row final =
    ((s.yields ≡ true)
      × (final.state ≡ available)
      × (final.attempt_num + 1 ≡ row.attempt_num)
      × (final.errors ≡ row.errors))
    ⊎ ((s.yields ≡ false)
        × (final.attempt_num ≡ row.attempt_num)
        × ((is_terminal s.state ≡ false)
            ⊎ ((final.state ≡ s.state) × (final.finalized_at ≡ some now)))
        × ((state_eq s.state retryable ≡ false)
            ⊎ (is_zero s.retry_at ≡ true)
            ⊎ ((final.state ≡ available) × (final.run_at ≡ s.retry_at)))
        × (length final.errors ≡ length row.errors + added s.error))

IsTransition : Time → JobSetStateParams → String → ℕ → JobRow → JobRow → Type 0
IsTransition now s worker_id attempt row final =
    IsSameJob row final × (is_claimed_by final worker_id attempt ≡ false) × IsAnswer now s row final

module _ (d : Driver) (row : JobRow) (id worker_id : String) (attempt : ℕ)
    (known : lookup id d.jobs ≡ some row) (named : (worker_id =s= "") ≡ false)
    (counted : 0 < attempt) where
  -- Where a job is not running under the claim that a worker names, with the attempt counted, the
  -- worker's start mark and heartbeat report `false` and change nothing, and its transition fails
  -- with `ErrStaleClaim`.
  pub lost_claim_refused :
      (s : JobSetStateParams) (at lease : Time)
      → is_claimed_by row worker_id attempt ≡ false
      → (job_mark_started d (mark_of id worker_id attempt at) ≡ (d, false))
        × (job_heartbeat d (heartbeat_of id worker_id attempt at lease) ≡ (d, false))
        × (job_set_state_if_running d (fenced s id worker_id attempt) ≡ err stale_claim)
  unfolding job_mark_started job_heartbeat job_set_state_if_running set_state_row
  lost_claim_refused s at lease lost = (
    rw (known, update_if, lost),
    rw (known, update_if, lost),
    rw (known, edit_row, matches-is_claimed_by row s id worker_id attempt named counted, lost),
  )

  pub transition-held :
      (s : JobSetStateParams)
      → is_claimed_by row worker_id attempt ≡ true
      → job_set_state_if_running d (fenced s id worker_id attempt)
        ≡ ok (
            put_job d id (
              if s.yields
              then yield_row row
              else settle_row d.now (fenced s id worker_id attempt) row))
  unfolding job_set_state_if_running set_state_row
  transition-held s held =
      rw (known, edit_row, matches-is_claimed_by row s id worker_id attempt named counted, held)

-- The rescue of a stuck job releases its row, which is then under no claim, of whatever worker and
-- attempt.
pub rescue_ends_claim :
    (d : Driver) (params : JobRescueParams) (id : String) (row : JobRow) (worker_id : String)
    (attempt : ℕ)
    → lookup id d.jobs ≡ some row
    → is_stuck params row ≡ true
    → (lookup id (job_rescue_stuck d params).0.jobs ≡ some (release row))
      × (is_claimed_by (release row) worker_id attempt ≡ false)
unfolding job_rescue_stuck rescue_row is_claimed_by release
rescue_ends_claim d params id row worker_id attempt known stuck =
    (lookup-map_values (rescue_row params) id d.jobs ∙ ground arith, refl)
