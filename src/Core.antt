-- ===== src/Core.antt =====
-- core/job.go: a job's arguments and the options of an enqueue and of a worker. Go's `JobArgs` is an
-- interface; what the code asks of a value stands in `JobArgs`.
pub mod Payload
pub mod Envelope
pub mod Retry
use goncordia.Prelude.{ℕ, ℤ, String, Bool, Option, List}
use goncordia.Prelude.Assoc.{Assoc}
use goncordia.Time.{Time}

-- `payload_version` is there where the type is a `VersionedJobArgs`; `json` is what json.Marshal
-- makes of the value, with `none` for an error.
pub record JobArgs : Type 0 where
  pub kind : String
  pub payload_version : Option ℤ
  pub json : Option String

pub record UniqueOpts : Type 0 where
  pub by_args : Bool
  pub key : String
  pub by_queue : Bool
  pub by_period : ℤ
  pub forever : Bool

pub record InsertOpts : Type 0 where
  pub queue : String
  pub priority : ℤ
  pub run_at : Time
  pub unique_opts : Option UniqueOpts
  pub max_retry : Option ℤ
  pub timeout : Option ℤ
  pub tags : List String
  pub pipeline_id : String
  pub payload_version : ℤ

-- The job that a worker is given.
pub record Job (T : Type 0) : Type 0 where
  pub id : String
  pub queue : String
  pub args : T
  pub attempt_num : ℕ
  pub max_retry : ℤ
  pub created_at : Time
  pub run_at : Time
  pub worker_id : String
  pub tags : List String
  pub pipeline_id : String
  pub payload_version : ℕ
