-- ===== src/Worker/Running.antt =====
-- worker.go, `processRow` up to the end of the handler: a claimed row is run under the middleware.
use goncordia.Prelude.{
  ℕ, zero, suc, ℤ, pos, positive, pos_part, leb, if◌then◌else◌, Option, none, some, List, [], ◌∷◌,
  length,
}
use goncordia.Prelude.Assoc.{Assoc}
use goncordia.Time.{Time, add}
use goncordia.Driver.{JobRow}
use goncordia.Core.Retry.{JobError, panic, Ending, returned, panicked}
use goncordia.Core.Payload.{Context, RawJob, WorkerEntry, registry_process, opts_of}
use goncordia.Worker.{Handler, JobMiddleware}

-- A job's own limit, else its worker's, else 3.
unfoldable pub effective_max_retry : Assoc WorkerEntry → JobRow → ℕ
unfolding opts_of
effective_max_retry workers row =
    if positive row.max_retry then pos_part row.max_retry else elim (opts_of workers row.kind) [
      | none ↦ 3
      | some opts ↦ if positive opts.max_retry then pos_part opts.max_retry else 3
    ]

unfoldable pub effective_timeout : Assoc WorkerEntry → JobRow → ℤ
unfolding opts_of
effective_timeout workers row =
    if positive row.timeout
    then row.timeout
    else elim (opts_of workers row.kind) [ none ↦ row.timeout | some opts ↦ opts.timeout ]

unfoldable pub raw_job : Assoc WorkerEntry → JobRow → RawJob
unfolding effective_max_retry
raw_job workers row = record {
  id = row.id;
  queue = row.queue;
  kind = row.kind;
  args = row.args;
  attempt_num = row.attempt_num;
  max_retry = pos (effective_max_retry workers row);
  created_at = row.created_at;
  run_at = row.run_at;
  worker_id = row.worker_id;
  tags = row.tags;
  pipeline_id = row.pipeline_id;
  payload_version = 0;
}

-- `recover()` turns a panic into an error.
unfoldable pub recovered : Ending → Ending
recovered (returned e) = returned e
recovered (panicked value stack) = returned (some (panic value stack))

-- The innermost handler.
unfoldable pub innermost : Assoc WorkerEntry → Handler
unfolding recovered
innermost workers ctx job =
    let (job', ending) = registry_process workers ctx job in (job', recovered ending)

abbrev item_at : ℕ → JobMiddleware → List JobMiddleware → JobMiddleware
item_at n d [] = d
item_at zero d (m ∷ ms) = m
item_at (suc n) d (m ∷ ms) = item_at n d ms

-- The loop over i from len(Middleware) - 1 down to 0; the number is i + 1.
unfoldable pub wrap_from : ℕ → List JobMiddleware → Handler → Handler
wrap_from zero middleware handler = handler
wrap_from (suc i) middleware handler =
    wrap_from i middleware (item_at i (λ next. next) middleware handler)

unfoldable pub wrap : List JobMiddleware → Handler → Handler
unfolding wrap_from
wrap middleware handler = wrap_from (length middleware) middleware handler

-- `callHandler`: a panic of the middleware is an error as well.
unfoldable pub call_handler : Handler → Context → RawJob → Option JobError
call_handler handler ctx job = elim (handler ctx job).1 [
  | returned e ↦ e
  | panicked value stack ↦ some (panic value stack)
]

-- The context of the run: the job's timeout from its start, within the claim's deadline.
unfoldable pub job_context : ℤ → Time → Context → Context
job_context timeout started ctx =
    if positive timeout
    then elim ctx [
      | none ↦ some (add started timeout)
      | some at ↦ if leb (add started timeout) at then some (add started timeout) else some at
    ]
    else ctx

-- What surrounds one run: the claim's context, the time it starts, the time it ends, and the error of
-- the context at its end.
pub record Surroundings : Type 0 where
  pub context : Context
  pub started : Time
  pub ended : Time
  pub lost : Option JobError

unfoldable pub run_row :
    Assoc WorkerEntry → List JobMiddleware → Surroundings → JobRow → Option JobError
unfolding wrap innermost call_handler job_context effective_timeout raw_job
run_row workers middleware around row =
    call_handler (wrap middleware (innermost workers))
      (job_context (effective_timeout workers row) around.started around.context)
      (raw_job workers row)
