-- ===== src/Cron.antt =====
-- cron.go: the periodic jobs of a leader, their configuration and the scan for occurrences that are due.
pub mod Scan
pub mod Tick
use goncordia.Prelude.{
  ℕ, zero, suc, ◌+◌, ◌*◌, ◌≡◌, ◌⊎◌, inl, inr, ℤ, pos, negsuc, negative, positive, pos_part,
  neg_part, sub_ℕ, leb_ℤ, leb, ltb, if◌then◌else◌, Bool, true, false, not, ◌||◌, ◌&&◌, String,
  ◌=s=◌, Option, none, some, List, [], ◌∷◌, ◌++◌, last_or,
}
use Prim.Native.String.{◌++◌ as ◌+s+◌}
use goncordia.Prelude.Decimal.{format_uint}
use goncordia.Time.{Time, is_zero, add, second}
use goncordia.Driver.{Error, Result, ok, err}
use goncordia.Driver.Pagination.{unix_nano}
use goncordia.Driver.Executor.{Executor}
use goncordia.Core.{JobArgs, InsertOpts, UniqueOpts}
use goncordia.Client.{Codecs, ClientConfig, ClientError}

-- A `CronCatchUpPolicy` is a uint8 with three known values.
pub data CatchUp : Type 0 where
  all latest skip_missed : CatchUp
  unknown : ℕ → CatchUp

-- A schedule gives the next run after the last one; none is a nil schedule.
pub record PeriodicJob : Type 0 where
  pub id : String
  pub schedule : Option (Time → Time)
  pub args : JobArgs
  pub opts : Option InsertOpts
  pub start_at : Time
  pub catch_up : CatchUp
  pub max_catch_up : ℤ

pub record CronConfig : Type 0 where
  pub tick_interval : ℤ
  pub leader_name : String
  pub worker_id : String
  pub leader_ttl : ℤ
  pub max_catch_up : ℤ

pub data CronError : Type 0 where
  no_leases no_schedule no_start_at bad_policy negative_max duplicate_id negative_config : CronError
  cursor_failed enqueue_failed election_failed : CronError
  not_advancing too_many_missed : CronError

-- core/schedule.go: `Every(d)`; the zero time means at once.
unfoldable pub every_next : ℤ → Time → Time
every_next d last = if is_zero last then 0 else add last d

-- A standard cron expression; `next` is the library's calendar.
unfoldable pub cron_next : (Time → Time) → Time → Time
cron_next next last = if is_zero last then 0 else next last

abbrev is_unknown : CatchUp → Bool
is_unknown (unknown _) = true
is_unknown _ = false

unfoldable pub contains : String → List String → Bool
contains id [] = false
contains id (j ∷ js) = (j =s= id) || contains id js

-- The first job that is refused.
unfoldable pub check_jobs : List String → List PeriodicJob → Option CronError
unfolding contains
check_jobs seen [] = none
check_jobs seen (job ∷ jobs) =
    let local = check_jobs seen jobs in
    let durable = check_jobs (job.id ∷ seen) jobs in
    elim job.schedule [
      | none ↦ some no_schedule
      | some _ ↦
          if job.id =s= ""
          then local
          else if is_zero job.start_at
          then some no_start_at
          else if is_unknown job.catch_up
          then some bad_policy
          else if negative job.max_catch_up
          then some negative_max
          else if contains job.id seen
          then some duplicate_id
          else durable
    ]

unfoldable pub validate_cron_config : Bool → List PeriodicJob → CronConfig → Option CronError
unfolding check_jobs
validate_cron_config linearizable_leases jobs cfg =
    if not linearizable_leases then some no_leases else elim (check_jobs [] jobs) [
      | some e ↦ some e
      | none ↦
          if negative cfg.tick_interval || negative cfg.leader_ttl || negative cfg.max_catch_up
          then some negative_config
          else none
    ]

-- The defaults of `newCronScheduler`; `fresh` is a random worker ID.
unfoldable pub with_defaults : String → CronConfig → CronConfig
with_defaults fresh cfg = record {
  tick_interval = if positive cfg.tick_interval then cfg.tick_interval else pos second;
  leader_name = if cfg.leader_name =s= "" then "goncordia-cron" else cfg.leader_name;
  worker_id = if cfg.worker_id =s= "" then fresh else cfg.worker_id;
  leader_ttl = if positive cfg.leader_ttl then cfg.leader_ttl else pos (30 * second);
  max_catch_up = if positive cfg.max_catch_up then cfg.max_catch_up else pos 100;
}

unfoldable pub max_catch_up : CronConfig → PeriodicJob → ℤ
max_catch_up cfg job = if positive job.max_catch_up then job.max_catch_up else cfg.max_catch_up

-- The bound on the occurrences of one tick, for `CronCatchUpAll`.
unfoldable pub bound_of : CronConfig → PeriodicJob → Option ℤ
bound_of cfg job = elim job.catch_up [ all ↦ some (max_catch_up cfg job) | _ ↦ none ]

abbrev pub reached : Option ℤ → ℕ → Bool
reached none n = false
reached (some bound) n = leb_ℤ bound (pos n)

-- The scan for due occurrences, of which `n` are found; `none` is a schedule that does not advance.
-- The second result says that the scan saw an occurrence that is not due.
unfoldable pub scan : (Time → Time) → Time → Option ℤ → ℕ → ℕ → Time → Option (List Time × Bool)
scan next_of now bound zero n cursor = some ([], false)
scan next_of now bound (suc rounds) n cursor =
    let next = next_of cursor in
    let more = scan next_of now bound rounds (suc n) next in
    if is_zero next || not (ltb cursor next)
    then none
    else if ltb now next
    then some ([], true)
    else if reached bound (suc n)
    then some (next ∷ [], false)
    else elim more [ none ↦ none | some (due, complete) ↦ some (next ∷ due, complete) ]

abbrev pub max_scan : ℕ
max_scan = 100000

unfoldable pub format_int : ℤ → String
format_int (pos n) = format_uint n
format_int (negsuc n) = "-" +s+ format_uint (suc n)

unfoldable pub occurrence_key : CronConfig → PeriodicJob → Time → String
unfolding format_int
occurrence_key cfg job at =
    "cron:" +s+ (cfg.leader_name +s+ (":" +s+ (job.id +s+ (":" +s+ format_int (unix_nano at)))))

-- The options of an occurrence: the job's own, with a key that stays reserved.
unfoldable pub occurrence_opts : CronConfig → PeriodicJob → Time → InsertOpts
unfolding occurrence_key
occurrence_opts cfg job at = record (elim job.opts [ some o ↦ o | none ↦ no_opts ]) {
  unique_opts = some (record {
    by_args = false;
    key = occurrence_key cfg job at;
    by_queue = false;
    by_period = pos 0;
    forever = true;
  });
}
  where
    no_opts : InsertOpts
    no_opts = record {
      queue = "";
      priority = pos 0;
      run_at = 0;
      unique_opts = none;
      max_retry = none;
      timeout = none;
      tags = [];
      pipeline_id = "";
      payload_version = pos 0;
    }

unfoldable pub durable_schedule_cursor_id : (String → String) → String → String → String
durable_schedule_cursor_id digest group id = "c1_" +s+ digest (group +s+ ("\0" +s+ id))
