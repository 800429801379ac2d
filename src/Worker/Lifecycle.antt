-- ===== src/Worker/Lifecycle.antt =====
-- worker.go: `Start` and `Shutdown`, the main loop, and the lease of a distributed pipeline. Timers
-- and channels are the events that the loops receive.
use goncordia.Prelude.{
  String, ◌=s=◌, Bool, true, false, ◌||◌, not, if◌then◌else◌, Option, none, some, List, [], ◌∷◌,
}
use Prim.Native.String.{◌++◌}
use goncordia.Prelude.Decimal.{format_uint}
use goncordia.Driver.{JobRow, LeaderElectParams, Error, ok, err}
use goncordia.Driver.Executor.{Executor}
use goncordia.Worker.{WorkerConfig}
use goncordia.Worker.Config.{Problem}

pub record Lifecycle : Type 0 where
  pub started : Bool
  pub shutting_down : Bool

pub data StartError : Type 0 where
  invalid_config : List Problem → StartError
  already_started is_shutting_down : StartError

abbrev start_valid : Lifecycle → Lifecycle × Option StartError
start_valid pool =
    if pool.started
    then (pool, some already_started)
    else if pool.shutting_down
    then (record pool { started = true }, some is_shutting_down)
    else (record pool { started = true }, none)

-- `none` is that the loops run.
unfoldable pub start_pool : List Problem → Lifecycle → Lifecycle × Option StartError
start_pool [] pool = start_valid pool
start_pool (p ∷ ps) pool = (pool, some (invalid_config (p ∷ ps)))

-- The part of `Shutdown` that runs once; a second call finds it done.
unfoldable pub shutdown : Lifecycle → Lifecycle
shutdown pool = record pool { shutting_down = true }

-- What the main loop receives; a rescue falls due only where the timeout of stuck jobs is positive and
-- the backend can rescue.
pub data PoolEvent : Type 0 where
  poll rescue_due context_done shutdown_asked : PoolEvent

-- The loop, with its two actions on the backend; a context that is done stops the pool.
unfoldable pub main_loop :
    {S : Type 0} → (Lifecycle → S → S) → (S → S) → List PoolEvent → Lifecycle × S → Lifecycle × S
unfolding shutdown
main_loop fetch rescue [] state = state
main_loop fetch rescue (poll ∷ events) (pool, s) =
    main_loop fetch rescue events (pool, fetch pool s)
main_loop fetch rescue (rescue_due ∷ events) (pool, s) =
    main_loop fetch rescue events (pool, rescue s)
main_loop fetch rescue (context_done ∷ events) (pool, s) = (shutdown pool, s)
main_loop fetch rescue (shutdown_asked ∷ events) (pool, s) = (pool, s)

abbrev pub lease_name : JobRow → String
lease_name row = "goncordia:pipeline:" ++ row.pipeline_id

abbrev pub lease_owner : WorkerConfig → JobRow → String
lease_owner cfg row = cfg.worker_id ++ ":" ++ row.id ++ ":" ++ format_uint row.attempt_num

abbrev pub lease_params : WorkerConfig → JobRow → LeaderElectParams
lease_params cfg row = record {
  name = lease_name row;
  worker_id = lease_owner cfg row;
  ttl = cfg.pipeline_lease_duration;
}

module _ {S : Type 0} (exec : Executor S) (cfg : WorkerConfig) (row : JobRow) where
  -- The rounds of the loop: what happens to the backend before one, and whether the job waits on after
  -- a round that did not elect it. An error is reported, and the loop goes on.
  unfoldable pub lease_loop : List ((S → S) × Bool) → S → S × Bool
  lease_loop [] s = (s, false)
  lease_loop ((others, waits) ∷ rounds) s =
      let (s', elected) = exec.leader_attempt_elect (others s) (lease_params cfg row) in
      let again = lease_loop rounds s' in
      elim elected [ ok true ↦ (s', true) | _ ↦ if waits then again else (s', false) ]

  -- A job without a pipeline needs no lease.
  unfoldable pub acquire_distributed_pipeline : List ((S → S) × Bool) → S → S × Bool
  unfolding lease_loop
  acquire_distributed_pipeline rounds s =
      if not cfg.distributed_pipelines || (row.pipeline_id =s= "")
      then (s, true)
      else lease_loop rounds s

  -- A tick of the renewal: whether the lease goes on. An error ends it.
  unfoldable pub renew_lease : S → S × Bool
  renew_lease s =
      let (s', renewed) = exec.leader_attempt_elect s (lease_params cfg row) in
      (s', elim renewed [ ok r ↦ r | err _ ↦ false ])

  unfoldable pub release_lease : S → S × Option Error
  release_lease s =
      let (s', resigned) =
        exec.leader_resign s (record { name = lease_name row; worker_id = lease_owner cfg row }) in
      (s', elim resigned [ ok _ ↦ none | err e ↦ some e ])
