-- ===== src/Worker/Defaults.antt =====
-- worker.go: the configuration of a new pool, with its defaults, and the weighted schedule of its
-- queues.
use goncordia.Prelude.{
  ℕ, ◌*◌, ◌/◌, ℤ, pos, positive, pos_part, leb_ℤ, String, ◌=s=◌, false, ◌&&◌, leb, if◌then◌else◌,
  none, some, List, [], ◌∷◌, ◌++◌, eqb_ℤ, replicate,
}
use goncordia.Prelude.Assoc.{Assoc, lookup}
use goncordia.Time.{millisecond, second, hour}
use goncordia.Core.Retry.{exponential_next_retry_at}
use goncordia.Worker.{QueuePolicy, RetryPolicy, WorkerConfig}
use goncordia.Worker.Config.{is_member, configured_queues}

-- The configured queues in their order, each once; `seen` are those that came before.
unfoldable pub distinct_queues : List String → List String → List String
unfolding is_member
distinct_queues seen [] = []
distinct_queues seen (q ∷ qs) =
    let again = distinct_queues seen qs in
    let new = distinct_queues (q ∷ seen) qs in if is_member q seen then again else q ∷ new

unfoldable pub default_retry_policy : RetryPolicy
default_retry_policy attempt e now =
    exponential_next_retry_at
      (record { base = pos second; max = pos (24 * hour); jitters = false; scaled = λ d. d })
      attempt now

abbrev pub at_least : ℤ → ℕ → ℤ
at_least d default = if positive d then d else pos default

-- The capacity of the pool.
unfoldable pub default_concurrency : WorkerConfig → ℕ
default_concurrency cfg = if positive cfg.concurrency then pos_part cfg.concurrency else 10

unfoldable pub default_max_pending : WorkerConfig → ℕ
unfolding default_concurrency
default_max_pending cfg =
    let concurrency = default_concurrency cfg in
    let pending = if positive cfg.max_pending then pos_part cfg.max_pending else concurrency * 4 in
    if leb concurrency pending then pending else concurrency

unfoldable pub default_stuck_timeout : WorkerConfig → ℤ
default_stuck_timeout cfg =
    if eqb_ℤ cfg.stuck_job_timeout (pos 0) then pos hour else cfg.stuck_job_timeout

-- A third of the timeout where the interval is not set, or not below the timeout.
unfoldable pub default_heartbeat : WorkerConfig → ℤ
unfolding default_stuck_timeout
default_heartbeat cfg =
    let stuck = default_stuck_timeout cfg in
    let third = pos (pos_part stuck / 3) in
    let interval =
      if eqb_ℤ cfg.heartbeat_interval (pos 0) && positive stuck
      then third
      else cfg.heartbeat_interval in
    if positive stuck && leb_ℤ stuck interval then third else interval

-- `generated` is the random identity of a pool that is given none.
unfoldable pub worker_defaults : String → WorkerConfig → WorkerConfig
unfolding default_concurrency default_max_pending default_stuck_timeout default_heartbeat
    distinct_queues configured_queues
worker_defaults generated cfg = record cfg {
  queues = distinct_queues [] (configured_queues cfg.queues);
  concurrency = pos (default_concurrency cfg);
  max_pending = pos (default_max_pending cfg);
  worker_id = if cfg.worker_id =s= "" then generated else cfg.worker_id;
  poll_interval = at_least cfg.poll_interval second;
  shutdown_timeout = at_least cfg.shutdown_timeout (30 * second);
  pipeline_lease_duration = at_least cfg.pipeline_lease_duration (30 * second);
  pipeline_poll_interval = at_least cfg.pipeline_poll_interval (250 * millisecond);
  rate_limit_poll_interval = at_least cfg.rate_limit_poll_interval second;
  stuck_job_timeout = default_stuck_timeout cfg;
  rescue_interval = at_least cfg.rescue_interval (60 * second);
  heartbeat_interval = default_heartbeat cfg;
  retry_policy = elim cfg.retry_policy [
    | none ↦ some default_retry_policy
    | some policy ↦ some policy
  ];
}

abbrev pub no_policy : QueuePolicy
no_policy = record {
  weight = pos 0;
  concurrency = pos 0;
  key_concurrency = [];
  rate_limits = [];
  rate_limit = pos 0;
  rate_period = pos 0;
}

-- A queue without a policy has the zero policy.
unfoldable pub policy_of : Assoc QueuePolicy → String → QueuePolicy
policy_of policies queue = elim (lookup queue policies) [ none ↦ no_policy | some policy ↦ policy ]

unfoldable pub weight_of : Assoc QueuePolicy → String → ℕ
unfolding policy_of
weight_of policies queue =
    let policy = policy_of policies queue in
    if positive policy.weight then pos_part policy.weight else 1

-- The slots of the weighted round robin.
unfoldable pub queue_schedule : Assoc QueuePolicy → List String → List String
unfolding weight_of
queue_schedule policies [] = []
queue_schedule policies (queue ∷ queues) =
    replicate (weight_of policies queue) queue ++ queue_schedule policies queues
