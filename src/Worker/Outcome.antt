-- ===== src/Worker/Outcome.antt =====
-- worker.go, `processRow` from the end of the handler: the end decides the fenced transition that is
-- asked of the driver.
use goncordia.Prelude.{ℕ, pos, String, ◌=s=◌, Bool, leb, if◌then◌else◌, Option, none, some, List}
use Prim.Native.String.{◌++◌}
use goncordia.Prelude.Assoc.{Assoc}
use goncordia.Time.{Time, is_zero, add}
use goncordia.Driver.{
  JobRow, JobState, JobSetStateParams, available, completed, retryable, discarded, Error,
  stale_claim, ok, err,
}
use goncordia.Driver.Executor.{Executor}
use goncordia.Core.Retry.{JobError, plain, wrapped, discard, retry, panic, as_discard, as_retry}
use goncordia.Core.Payload.{WorkerEntry}
use goncordia.Worker.{JobMiddleware, RetryPolicy}
use goncordia.Worker.Running.{effective_max_retry, Surroundings, run_row}

-- `err.Error()`
unfoldable pub error_text : JobError → String
error_text (plain text) = text
error_text (wrapped text _) = text
error_text (discard e) = error_text e
error_text (retry e _ _) = error_text e
error_text (panic value stack) = "panic: " ++ value

abbrev panic_stack : JobError → Option String
panic_stack (plain _) = none
panic_stack (wrapped _ e) = panic_stack e
panic_stack (discard e) = panic_stack e
panic_stack (retry e _ _) = panic_stack e
panic_stack (panic value stack) = some stack

unfoldable pub panic_trace : JobError → Option String
panic_trace e = elim (panic_stack e) [
  | none ↦ none
  | some stack ↦ if stack =s= "" then none else some stack
]

abbrev pub no_transition : JobSetStateParams
no_transition = record {
  id = "";
  state = available;
  error = none;
  trace = none;
  attempt = 0;
  retry_at = 0;
  expected_worker_id = "";
  expected_attempt = pos 0;
  yields = Bool.false;
}

unfoldable pub fenced_state_params : JobRow → JobSetStateParams → JobSetStateParams
fenced_state_params row params = record params {
  id = row.id;
  expected_worker_id = row.worker_id;
  expected_attempt = pos row.attempt_num;
}

unfoldable pub retry_time : RetryPolicy → Time → JobRow → JobError → Time
retry_time policy now row e = elim (as_retry e) [
  | none ↦ policy row.attempt_num e now
  | some (at, after) ↦ if is_zero at then add now after else at
]

unfoldable pub discarding : JobRow → JobError → JobSetStateParams
unfolding error_text panic_trace
discarding row e = record no_transition {
  state = discarded;
  error = some (error_text e);
  trace = panic_trace e;
  attempt = row.attempt_num;
}

unfoldable pub retrying : JobRow → JobError → Time → JobSetStateParams
unfolding error_text panic_trace
retrying row e at = record no_transition {
  state = retryable;
  error = some (error_text e);
  trace = panic_trace e;
  attempt = row.attempt_num;
  retry_at = at;
}

unfoldable pub yielding : JobSetStateParams
yielding = record no_transition { yields = Bool.true }

-- The end of a run: the transition, the state that is reported, and the error.
pub record Settlement : Type 0 where
  pub params : JobSetStateParams
  pub state : JobState
  pub error : Option JobError

-- What follows a failed run.
unfoldable pub settle_error : RetryPolicy → ℕ → Time → JobRow → JobError → Settlement
unfolding discarding retrying retry_time
settle_error policy max_retry now row e = elim (as_discard e) [
  | some _ ↦ record { params = discarding row e; state = discarded; error = some e }
  | none ↦
      if leb max_retry row.attempt_num
      then record { params = discarding row e; state = discarded; error = some e }
      else let at = retry_time policy now row e in
        if is_zero at
        then record { params = discarding row e; state = discarded; error = some e }
        else record { params = retrying row e at; state = retryable; error = some e }
]

-- `lost` is that the context of the claim or of the pool is done after the run, and `cause` its error.
unfoldable pub settlement :
    RetryPolicy → ℕ → Option JobError → Time → JobRow → Option JobError → Settlement
unfolding settle_error yielding
settlement policy max_retry (some cause) now row result = record {
  params = yielding;
  state = available;
  error = some cause;
}
settlement policy max_retry none now row none = record {
  params = record no_transition { state = completed };
  state = completed;
  error = none;
}
settlement policy max_retry none now row (some e) = settle_error policy max_retry now row e

-- `setState`: a stale claim is no error, and any other is reported.
unfoldable pub set_state : {S : Type 0} → Executor S → JobSetStateParams → S → S × Option Error
set_state exec params s =
    let (s', r) = exec.job_set_state_if_running s params in
    (s', elim r [ ok _ ↦ none | err stale_claim ↦ none | err e ↦ some e ])

-- The state and the error of the run, the backend after it, and the error that is reported.
unfoldable pub process_row :
    {S : Type 0}
    → Executor S
    → Assoc WorkerEntry
    → List JobMiddleware
    → RetryPolicy
    → Surroundings
    → JobRow
    → S
    → (S × Option Error) × (JobState × Option JobError)
unfolding run_row settlement set_state
process_row exec workers middleware policy around row s =
    let settled =
      settlement policy (effective_max_retry workers row) around.lost around.ended row
        (run_row workers middleware around row) in
    (set_state exec (fenced_state_params row settled.params) s, (settled.state, settled.error))
