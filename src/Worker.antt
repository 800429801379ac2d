-- ===== src/Worker.antt =====
-- worker.go: the worker pool's configuration, its state, and its loops. An unset field of the
-- configuration is its zero value; a map that is nil is empty. `S` is the state of the backend.
pub mod Becomes
pub mod Capacity
pub mod Claimed
pub mod Claiming
pub mod Renewal
pub mod Config
pub mod Defaults
pub mod Dispatch
pub mod Exclusion
pub mod Gates
pub mod Idle
pub mod Lifecycle
pub mod Limits
pub mod LocalRate
pub mod Normal
pub mod Outcome
pub mod Permit
pub mod Pipeline
pub mod Ready
pub mod Reserve
pub mod Running
mod Scenarios
mod RateScenarios
mod PoolScenarios
pub mod Samples
pub mod Serial
pub mod Serving
pub mod Settled
pub mod Settling
pub mod Waiting
use goncordia.Prelude.{ℕ, ℤ, String, Bool, Option, List}
use goncordia.Prelude.Assoc.{Assoc}
use goncordia.Time.{Time}
use goncordia.Core.Retry.{JobError, Ending}
use goncordia.Core.Payload.{Context, RawJob}
use goncordia.Driver.RateLimit.{RateLimitMode}

-- A `RateLimitScope` is a uint8; `unknown_scope n` is n + 2.
pub data RateLimitScope : Type 0 where
  local global : RateLimitScope
  unknown_scope : ℕ → RateLimitScope

-- A `RateLimitKey` is a uint8; `unknown_key n` is n + 4.
pub data RateLimitKey : Type 0 where
  by_queue by_kind by_pipeline by_tag : RateLimitKey
  unknown_key : ℕ → RateLimitKey

pub record QueueRateLimit : Type 0 where
  pub limit : ℤ
  pub period : ℤ
  pub burst : ℤ
  pub scope : RateLimitScope
  pub key : RateLimitKey
  pub tag_prefix : String
  pub mode : RateLimitMode

pub record KeyConcurrencyLimit : Type 0 where
  pub key : RateLimitKey
  pub tag_prefix : String
  pub limit : ℤ

pub record QueuePolicy : Type 0 where
  pub weight : ℤ
  pub concurrency : ℤ
  pub key_concurrency : List KeyConcurrencyLimit
  pub rate_limits : List QueueRateLimit
  pub rate_limit : ℤ
  pub rate_period : ℤ

-- A handler ends with an error or a panic, and leaves the raw job that its caller shares.
abbrev pub Handler : Type 0
Handler = Context → RawJob → RawJob × Ending

-- A middleware is given the next handler.
abbrev pub JobMiddleware : Type 0
JobMiddleware = Handler → Handler

-- `NextRetryAt` of an attempt's error at a time.
abbrev pub RetryPolicy : Type 0
RetryPolicy = ℕ → JobError → Time → Time

-- The clock, the observer and the error handler are the model's surroundings.
pub record WorkerConfig : Type 0 where
  pub queues : List String
  pub queue_policies : Assoc QueuePolicy
  pub distributed_pipelines : Bool
  pub pipeline_lease_duration : ℤ
  pub pipeline_poll_interval : ℤ
  pub rate_limit_poll_interval : ℤ
  pub concurrency : ℤ
  pub max_pending : ℤ
  pub worker_id : String
  pub poll_interval : ℤ
  pub retry_policy : Option RetryPolicy
  pub shutdown_timeout : ℤ
  pub stuck_job_timeout : ℤ
  pub rescue_interval : ℤ
  pub heartbeat_interval : ℤ
  pub middleware : List JobMiddleware
  pub require_lifecycle_persistence : Bool
  pub require_strict_ordering : Bool

pub record NormalizedRateLimit : Type 0 where
  pub key : String
  pub limit : ℕ
  pub burst : ℕ
  pub period : ℕ
  pub interval : ℕ
  pub tolerance : ℕ
  pub scope : RateLimitScope
  pub key_by : RateLimitKey
  pub tag_prefix : String
  pub mode : RateLimitMode
