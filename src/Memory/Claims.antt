-- ===== src/Memory/Claims.antt =====
-- driver/memory/memory.go: claiming due jobs, and what a claim's owner may do to it.
use goncordia.Prelude.{
  ℕ, suc, ◌-◌, ℤ, positive, pos_part, ltb_ℤ, eqb_ℤ, String, ◌=s=◌, text_ltb, Bool, false, ◌&&◌, not,
  ltb, ◌==◌, if◌then◌else◌, Option, none, some, List, [], ◌∷◌, ◌++◌, keep, take, length,
}
use goncordia.Prelude.Assoc.{Assoc, lookup, insert, map_values}
use goncordia.Prelude.Sort.{sort}
use goncordia.Time.{Time, is_zero, add}
use goncordia.Driver.{
  JobRow, FetchParams, JobRescueParams, JobHeartbeatParams, JobMarkStartedParams, JobSetStateParams,
  available, running, scheduled, retryable, Result, ok, err, stale_claim, state_eq, is_terminal,
  matches_claim,
}
use goncordia.Memory.State.{Driver, update_if, edit_row}

-- A scheduled job of the queue whose time has come is available.
unfoldable pub promote : String → Time → JobRow → JobRow
unfolding state_eq
promote queue now j =
    if (j.queue =s= queue) && state_eq j.state scheduled && not (ltb now j.run_at)
    then record j { state = available }
    else j

unfoldable pub is_candidate : String → Time → JobRow → Bool
unfolding state_eq
is_candidate queue now j =
    (j.queue =s= queue) && state_eq j.state available && not (ltb now j.run_at)

-- priority DESC, run_at ASC, created_at ASC, id ASC
unfoldable pub claims_before : JobRow → JobRow → Bool
claims_before a b =
    if not (eqb_ℤ a.priority b.priority)
    then ltb_ℤ b.priority a.priority
    else if not (a.run_at == b.run_at)
    then ltb a.run_at b.run_at
    else if not (a.created_at == b.created_at)
    then ltb a.created_at b.created_at
    else text_ltb a.id b.id

unfoldable pub claim : Time → FetchParams → JobRow → JobRow
claim now params j = record j {
  state = running;
  attempted_at = some now;
  started_at = none;
  lease_expires_at =
      if positive params.lease_duration then some (add now params.lease_duration) else none;
  attempt_num = suc j.attempt_num;
  worker_id = params.worker_id;
}

-- if limit <= 0 || limit > len(candidates) { limit = len(candidates) }; `take` stops at the end
unfoldable pub fetch_limit : ℤ → ℕ → ℕ
fetch_limit limit candidates = if positive limit then pos_part limit else candidates

abbrev pub entry_is_candidate : String → Time → String × JobRow → Bool
entry_is_candidate queue now (_, j) = is_candidate queue now j

abbrev pub entry_claims_before : String × JobRow → String × JobRow → Bool
entry_claims_before (_, a) (_, b) = claims_before a b

-- A claim writes through the job's pointer, which the map's key stands for.
unfoldable pub claim_all :
    Time → FetchParams → List (String × JobRow) → Assoc JobRow → Assoc JobRow × List JobRow
claim_all now params [] jobs = (jobs, [])
claim_all now params ((key, j) ∷ rest) jobs =
    let row = claim now params j in
    let (jobs', rows) = claim_all now params rest (insert key row jobs) in (jobs', row ∷ rows)

unfoldable pub promoted : Driver → String → Assoc JobRow
promoted d queue = map_values (promote queue d.now) d.jobs

-- The jobs that a fetch claims, first one first.
unfoldable pub chosen : Driver → FetchParams → List (String × JobRow)
chosen d params =
    let candidates = keep (entry_is_candidate params.queue d.now) (promoted d params.queue) in
    take (fetch_limit params.limit (length candidates)) (sort entry_claims_before candidates)

unfoldable pub fetch_open : Driver → FetchParams → Driver × List JobRow
fetch_open d params =
    let (jobs, rows) = claim_all d.now params (chosen d params) (promoted d params.queue) in
    (record d { jobs = jobs }, rows)

-- A queue that is unknown or paused gives nothing.
unfoldable pub job_fetch_batch : Driver → FetchParams → Driver × List JobRow
unfolding fetch_open
job_fetch_batch d params = elim (lookup params.queue d.queues) [
  | none ↦ (d, [])
  | some q ↦ if q.paused then (d, []) else fetch_open d params
]

-- The row is running under this claim.
unfoldable pub is_claimed_by : JobRow → String → ℕ → Bool
unfolding state_eq
is_claimed_by row worker_id attempt =
    state_eq row.state running && row.worker_id =s= worker_id && row.attempt_num == attempt

unfoldable pub job_mark_started : Driver → JobMarkStartedParams → Driver × Bool
unfolding is_claimed_by update_if
job_mark_started d params =
    update_if d params.id (λ row. is_claimed_by row params.worker_id params.attempt)
      (λ row. record row { started_at = some params.at })

-- The claim's lease is over at `At`, or the claim has no lease and began by `Before`.
unfoldable pub is_stuck : JobRescueParams → JobRow → Bool
unfolding state_eq
is_stuck params row =
    row.queue =s= params.queue && state_eq row.state running && elim row.lease_expires_at [
      | some lease ↦ not (is_zero params.at) && not (ltb params.at lease)
      | none ↦ elim row.attempted_at [ none ↦ false | some at ↦ not (ltb params.before at) ]
    ]

unfoldable pub release : JobRow → JobRow
release row = record row {
  state = available;
  attempted_at = none;
  lease_expires_at = none;
  worker_id = "";
}

unfoldable pub rescue_row : JobRescueParams → JobRow → JobRow
unfolding is_stuck release
rescue_row params row = if is_stuck params row then release row else row

abbrev pub entry_is_stuck : JobRescueParams → String × JobRow → Bool
entry_is_stuck params (_, row) = is_stuck params row

unfoldable pub job_rescue_stuck : Driver → JobRescueParams → Driver × ℕ
unfolding rescue_row
job_rescue_stuck d params = (
  record d { jobs = map_values (rescue_row params) d.jobs },
  length (keep (entry_is_stuck params) d.jobs),
)

-- The deadline that a heartbeat sets.
abbrev pub renewed_lease : JobHeartbeatParams → Time
renewed_lease params =
    if is_zero params.lease_expires_at then params.at else params.lease_expires_at

unfoldable pub job_heartbeat : Driver → JobHeartbeatParams → Driver × Bool
unfolding is_claimed_by update_if
job_heartbeat d params =
    update_if d params.id (λ row. is_claimed_by row params.worker_id params.attempt)
      (λ row. record row { lease_expires_at = some (renewed_lease params) })

-- `row.AttemptNum--` undoes the claim's increment, so the count is not 0.
unfoldable pub yield_row : JobRow → JobRow
yield_row row = record row {
  state = available;
  attempt_num = row.attempt_num - 1;
  attempted_at = none;
  lease_expires_at = none;
  worker_id = "";
}

abbrev pub text_or : Option String → String → String
text_or none d = d
text_or (some t) d = t

unfoldable pub record_error : Time → JobSetStateParams → JobRow → JobRow
record_error now params row = elim params.error [
  | none ↦ row
  | some e ↦ record row {
    errors =
        row.errors
        ++ (record {
          at = now;
          attempt = row.attempt_num;
          error = e;
          trace = text_or params.trace "";
        })
          ∷ [];
  }
]

schedule_retry : JobSetStateParams → JobRow → JobRow
unfolding state_eq
schedule_retry params row =
    if state_eq params.state retryable && not (is_zero params.retry_at)
    then record row { run_at = params.retry_at; state = available }
    else row

finalize : Time → JobSetStateParams → JobRow → JobRow
unfolding is_terminal
finalize now params row =
    if is_terminal params.state then record row { finalized_at = some now } else row

-- The row after an accepted transition that is no yield.
unfoldable pub settle_row : Time → JobSetStateParams → JobRow → JobRow
unfolding record_error schedule_retry finalize
settle_row now params row = finalize now params (
    schedule_retry params (
      record_error now params
        (record row { state = params.state; worker_id = ""; lease_expires_at = none })))

-- What the transition makes of the row, or its refusal.
unfoldable pub set_state_row : Time → JobSetStateParams → JobRow → Result JobRow
unfolding yield_row settle_row state_eq matches_claim
set_state_row now params row =
    if state_eq row.state running && matches_claim params row.worker_id row.attempt_num
    then ok (if params.yields then yield_row row else settle_row now params row)
    else err stale_claim

unfoldable pub job_set_state_if_running : Driver → JobSetStateParams → Result Driver
unfolding set_state_row edit_row
job_set_state_if_running d params = edit_row d params.id stale_claim (set_state_row d.now params)
