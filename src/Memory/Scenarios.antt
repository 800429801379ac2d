-- ===== src/Memory/Scenarios.antt =====
-- driver/memory: the theorems at work on a queue with a few jobs.
use goncordia.Prelude.{
  ◌==◌, ℕ, ◌≡◌, refl, String, eq_iff, false, none, some, List, [], ◌∷◌, All, pos, length, keep, min,
  arith,
}
use goncordia.Prelude.Assoc.{Assoc, lookup, map_values, insert as insert_entry, Distinct}
use goncordia.Prelude.Sort.{Chain, sort}
use goncordia.Prelude.Decimal.{format_uint}
use goncordia.Time.{Time, add}
use goncordia.Driver.{
  JobRow, JobState, available, running, completed, cancelled, QueueRow, JobInsertParams,
  FetchParams, JobRescueParams, JobSetStateParams, RescheduleParams, LeaderElectParams,
  ScheduleCursorAdvanceParams, err, stale_claim,
}
use goncordia.Memory.State.{Driver, new, holds_key}
use goncordia.Memory.Jobs.{new_row, job_insert_many, job_insert}
use goncordia.Memory.Claims.{
  fetch_limit, is_claimed_by, is_stuck, job_mark_started, job_heartbeat, job_set_state_if_running,
  job_rescue_stuck, release, promoted, chosen, is_candidate, entry_is_candidate, promote,
  claims_before, job_fetch_batch,
}
use goncordia.Memory.Edits.{job_cancel, job_reschedule}
use goncordia.Memory.Leases.{leader_attempt_elect, schedule_cursor_advance}
use goncordia.Memory.Run.{Call, insert, fetch, cancel, tick, after, step, run}
use goncordia.Memory.Rows.{Rows}
use goncordia.Memory.Lifecycle.{RowStep}
use goncordia.Memory.Invariant.{Inv, run-Inv, new-Inv}
use goncordia.Memory.Unique.{IsUnique, run-IsUnique, reschedule_shares_key}
use goncordia.Memory.Fencing.{fenced, mark_of, heartbeat_of, lost_claim_refused, rescue_ends_claim}
use goncordia.Memory.Fetch.Order.{IsClaim, fetch_takes_first, fetch_rows}
use goncordia.Memory.Fetch.Once.{fetch_exclusive}
use goncordia.Memory.Listener.{channels_of, no_subs, listen, unlisten, unlisten-listen}
use goncordia.Memory.Steps.{step-Steps}
use goncordia.Memory.Terminal.{ended_stays}
use goncordia.Memory.Leases.Exclusion.{leader_exclusive, cursor_one_winner}

abbrev job : String → JobState → ℕ → JobRow
job id state attempt = record {
  id = id;
  queue = "mail";
  kind = "welcome";
  args = "{}";
  state = state;
  priority = pos 1;
  run_at = 900;
  created_at = 900;
  attempted_at = none;
  started_at = none;
  lease_expires_at = some 950;
  finalized_at = none;
  attempt_num = attempt;
  max_retry = pos 3;
  timeout = pos 0;
  tags = [];
  errors = [];
  unique_key = "user/7";
  worker_id = "w1";
  pipeline_id = "";
}

abbrev driver : Assoc JobRow → Driver
driver jobs = record {
  jobs = jobs;
  queues =
      (("mail", record { name = "mail"; paused = false; created_at = 900; updated_at = 900 })) ∷ [];
  seq = 2;
  notify = [];
  leaders = [];
  cursors = ("cron/nightly", 500) ∷ [];
  now = 1000;
}

abbrev waiting : Driver
waiting = driver (("mem_1", job "mem_1" available 0) ∷ ("mem_2", job "mem_2" available 0) ∷ [])

abbrev busy : Driver
busy = driver (("mem_1", job "mem_1" running 1) ∷ ("mem_2", job "mem_2" available 0) ∷ [])

-- The first job has ended, and the second has its key.
abbrev retaken : Driver
retaken = driver (("mem_1", job "mem_1" cancelled 0) ∷ ("mem_2", job "mem_2" available 0) ∷ [])

abbrev welcome : JobInsertParams
welcome = record {
  queue = "mail";
  kind = "welcome";
  args = "{}";
  priority = pos 1;
  run_at = 900;
  unique_key = "user/7";
  max_retry = pos 3;
  timeout = pos 0;
  tags = [];
  pipeline_id = "";
}

abbrev one_for : String → FetchParams
one_for worker = record {
  queue = "mail";
  limit = pos 1;
  worker_id = worker;
  lease_duration = pos 60;
}

abbrev done : JobSetStateParams
done = record {
  id = "mem_1";
  state = completed;
  error = none;
  trace = none;
  attempt = 1;
  retry_at = 0;
  expected_worker_id = "";
  expected_attempt = pos 0;
  yields = false;
}

abbrev history : List Call
history =
    insert welcome ∷ insert welcome ∷ cancel "mem_1" ∷ insert welcome ∷ fetch (one_for "w1") ∷ []

no_keys : IsUnique (new 1000)
unfolding new lookup
no_keys j k a b ej ek set ha hb = cc

run-IsUnique_example : IsUnique (run (new 1000) history)
unfolding new
run-IsUnique_example =
    run-IsUnique (new 1000) history (omega arith) (new-Inv 1000)
      (refl, (refl, (refl, (refl, (refl, tt))))) no_keys

run-Inv_example : Inv (run (new 1000) history)
unfolding new
run-Inv_example = run-Inv (new 1000) history (omega arith) (new-Inv 1000)

abbrev ended : JobRow
ended = record (new_row 1000 "mem_1" welcome) { state = cancelled; finalized_at = some 1000 }

ended_stays_example : ended.state ≡ ended.state
unfolding run step lookup new job_insert_many job_insert job_cancel insert_entry format_uint
ended_stays_example =
    ended_stays (run (new 1000) (insert welcome ∷ cancel "mem_1" ∷ [])) (insert welcome ∷ [])
      "mem_1" ended ended (omega arith)
      (run-Inv (new 1000) (insert welcome ∷ cancel "mem_1" ∷ []) (omega arith) (new-Inv 1000))
      (refl, tt) refl refl refl

lost_claim_refused_example :
    (job_mark_started busy (mark_of "mem_1" "w2" 1 1000) ≡ (busy, false))
    × (job_heartbeat busy (heartbeat_of "mem_1" "w2" 1 1000 1060) ≡ (busy, false))
    × (job_set_state_if_running busy (fenced done "mem_1" "w2" 1) ≡ err stale_claim)
unfolding lookup is_claimed_by
lost_claim_refused_example =
    lost_claim_refused busy (job "mem_1" running 1) "mem_1" "w2" 1 refl refl (omega arith) done 1000
      1060 refl

abbrev overdue : JobRescueParams
overdue = record { queue = "mail"; at = 1000; before = 800 }

rescue_ends_claim_example :
    (lookup "mem_1" (job_rescue_stuck busy overdue).0.jobs ≡ some (release (job "mem_1" running 1)))
    × (is_claimed_by (release (job "mem_1" running 1)) "w1" 1 ≡ false)
unfolding lookup is_stuck
rescue_ends_claim_example =
    rescue_ends_claim busy overdue "mem_1" (job "mem_1" running 1) "w1" 1 refl refl

two_ids : Distinct waiting.jobs
unfolding lookup
two_ids = (refl, (refl, tt))

fetch_takes_first_example :
    All (λ e. claims_before (job "mem_2" available 0) e.1 ≡ false) (chosen waiting (one_for "w1"))
unfolding lookup promoted promote is_candidate chosen map_values fetch_limit sort claims_before
fetch_takes_first_example =
    fetch_takes_first waiting (one_for "w1") "mem_2" (job "mem_2" available 0) two_ids refl refl
      refl

mail_open : (q : QueueRow) × (lookup "mail" waiting.queues ≡ some q) × (q.paused ≡ false)
unfolding lookup
mail_open =
    (record { name = "mail"; paused = false; created_at = 900; updated_at = 900 }, refl, refl)

fetch_rows_example :
    (length (job_fetch_batch waiting (one_for "w1")).1
      ≡ min 1 (length (keep (entry_is_candidate "mail" 1000) (promoted waiting "mail"))))
    × Chain claims_before (job_fetch_batch waiting (one_for "w1")).1
    × All (IsClaim waiting (one_for "w1")) (job_fetch_batch waiting (one_for "w1")).1
fetch_rows_example = fetch_rows waiting (one_for "w1") mail_open refl

fetch_exclusive_example :
    lookup "mem_1" (chosen (job_fetch_batch waiting (one_for "w1")).0 (one_for "w2")) ≡ none
unfolding lookup promoted promote is_candidate chosen map_values fetch_limit sort claims_before
fetch_exclusive_example =
    fetch_exclusive waiting (one_for "w1") (one_for "w2") "mem_1" (job "mem_1" available 0) two_ids
      mail_open refl

step-Steps_example : Rows RowStep waiting.jobs (step waiting (fetch (one_for "w1"))).jobs
step-Steps_example = step-Steps waiting (fetch (one_for "w1")) two_ids refl

abbrev candidacy : String → LeaderElectParams
candidacy worker = record { name = "cron"; worker_id = worker; ttl = pos 30 }

leader_exclusive_example :
    let d = run (leader_attempt_elect waiting (candidacy "w1")).0 (tick 1020 ∷ []) in
    leader_attempt_elect d (candidacy "w2") ≡ (d, false)
unfolding leader_attempt_elect step lookup add
leader_exclusive_example =
    leader_exclusive waiting (candidacy "w1") (candidacy "w2") (tick 1020 ∷ []) refl (refl, tt)
      (omega arith, omega arith) refl refl

abbrev nightly : Time → ScheduleCursorAdvanceParams
nightly next = record { id = "cron/nightly"; expected = 500; next = next }

cursor_one_winner_example :
    let d = (schedule_cursor_advance waiting (nightly 600)).0 in
    schedule_cursor_advance d (nightly 700) ≡ (d, false)
unfolding schedule_cursor_advance lookup
cursor_one_winner_example =
    cursor_one_winner waiting (nightly 600) (nightly 700) refl refl refl (λ e. omega (arith, e))

abbrev again : RescheduleParams
again = record { id = "mem_1"; run_at = 2000 }

reschedule_shares_key_example : ¬ (IsUnique (after retaken (job_reschedule retaken again)))
unfolding lookup holds_key
reschedule_shares_key_example =
    reschedule_shares_key retaken again "mem_2" (job "mem_2" available 0) (job "mem_1" cancelled 0)
      refl refl (λ e. cc ((eq_iff "mem_2" "mem_1").1 e)) refl refl refl

-- Another listener has the channel 1 of the queue.
abbrev heard : Driver
heard = record waiting { notify = ("mail", record { id = 1; buffered = 3 } ∷ []) ∷ [] }

no_other_2 : All (λ ch. (ch.id == 2) ≡ false) (channels_of heard "mail")
unfolding lookup
no_other_2 = (refl, tt)

unlisten-listen_example :
    (channels_of (unlisten "mail" (listen 2 "mail" (heard, no_subs))).0 "mail"
      ≡ channels_of heard "mail")
    × (lookup "mail" (unlisten "mail" (listen 2 "mail" (heard, no_subs))).1.subs
        ≡ lookup "mail" no_subs.subs)
unfolding lookup
unlisten-listen_example = unlisten-listen 2 "mail" "mail" heard no_subs no_other_2 refl
