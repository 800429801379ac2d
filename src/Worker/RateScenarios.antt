-- ===== src/Worker/RateScenarios.antt =====
-- The theorems on rate limits and permits at concrete inputs.
use goncordia.Prelude.{◌≡◌, refl, pos, true, false, none, some, List, [], ◌∷◌}
use goncordia.Prelude.Assoc.{lookup, insert}
use goncordia.Time.{truncate}
use goncordia.Driver.{Capabilities}
use goncordia.Driver.RateLimit.{gcra, fixed_window, rate_interval, acquire_rate_limit}
use goncordia.Memory.State.{Driver}
use goncordia.Memory.Interfaces.{cursor_store}
use goncordia.Worker.{QueuePolicy, QueueRateLimit, NormalizedRateLimit, local, global, by_queue}
use goncordia.Worker.Config.{is_member, rule_problems, rate_limit_problem}
use goncordia.Worker.Limits.{Arithmetic, normalize_rate_limits, normalize_rule, rate_rule_key}
use goncordia.Worker.LocalRate.{
  Rates, KeyedRule, local_rate_delay, Reservation, reserve_local_rate_limits,
}
use goncordia.Worker.Reserve.{SameRates}
use goncordia.Worker.Permit.{Backend, Round, keyed, global_params, permit_loop}
use goncordia.Worker.Waiting.{permit_loop-refused}
use goncordia.Worker.Ready.{DistinctKeys, no_delay-reserve}
use goncordia.Worker.Normal.{loop_of, checked_rule-runs}
use goncordia.Worker.Defaults.{no_policy}
use goncordia.Worker.Samples.{row, mail}

abbrev arithmetic : Arithmetic
arithmetic = record { quotient = λ period limit. 100; digest = λ text. "d" }

abbrev twice_a_second : NormalizedRateLimit
twice_a_second = record {
  key = "k";
  limit = 2;
  burst = 1;
  period = 1000;
  interval = 500;
  tolerance = 0;
  scope = local;
  key_by = by_queue;
  tag_prefix = "";
  mode = fixed_window;
}

abbrev backend : Backend Driver
backend = record {
  store = cursor_store;
  native = none;
  world = record { others = λ n d. d; is_done = λ n. false };
  fuel = 1;
}

-- The window of time 1000 is used up, and the pool shuts down during the delay.
abbrev full_window : Rates
full_window = ("k", record { tat = 0; window_start = 1000; count = 2 }) ∷ []

abbrev stopped : Round Driver
stopped = record {
  rules = twice_a_second ∷ [];
  now = 1200;
  asked = 1200;
  waits = λ delay. false;
  before = λ state. state;
  during = λ rates. rates;
}

stops : (permit_loop arithmetic backend row 1000 (stopped ∷ []) (full_window, mail)).1 ≡ some false
unfolding permit_loop lookup truncate
stops = refl

permit_loop-refused_example :
    SameRates
      (permit_loop arithmetic backend row 1000 (stopped ∷ []) (full_window, mail)).0.0
      full_window
permit_loop-refused_example =
    permit_loop-refused arithmetic backend row 1000 (stopped ∷ []) (full_window, mail)
      ((λ state. refl, λ rates. refl), tt) stops

abbrev ten_a_second : QueueRateLimit
ten_a_second = record {
  limit = pos 10;
  period = pos 1000000000;
  burst = pos 1;
  scope = global;
  key = by_queue;
  tag_prefix = "";
  mode = gcra;
}

abbrev local_policy : QueuePolicy
local_policy = record no_policy { rate_limits = record ten_a_second { scope = local } ∷ [] }

abbrev mail_rules : List KeyedRule
mail_rules = keyed arithmetic row (normalize_rate_limits arithmetic "mail" local_policy)

one_rule : DistinctKeys mail_rules
unfolding keyed normalize_rate_limits is_member
one_rule = (tt, tt)

no_wait : (local_rate_delay mail_rules 1200 0 []).1 ≡ 0
unfolding keyed normalize_rate_limits local_rate_delay is_member lookup insert rate_interval
no_wait = refl

no_delay-reserve_example :
    (made : List Reservation) × ((reserve_local_rate_limits mail_rules 1200 []
        (local_rate_delay mail_rules 1200 0 []).0).1
      ≡ some made)
no_delay-reserve_example =
    no_delay-reserve arithmetic "mail" local_policy row 1200 [] one_rule no_wait

abbrev capabilities : Capabilities
capabilities = record {
  native_tx = false;
  listen_notify = true;
  change_streams = false;
  skip_locked = true;
  unique_jobs = true;
  advisory_locks = true;
  linearizable_leases = true;
  linearizable_cas = true;
  lifecycle_timestamps = true;
  bounded_fetch = true;
  strict_fetch_ordering = true;
}

no_problem : rule_problems capabilities ten_a_second (rate_limit_problem "mail" 0) ≡ []
unfolding rule_problems
no_problem = refl

checked_rule-runs_example :
    acquire_rate_limit cursor_store backend.world none arithmetic.quotient 1
      (global_params arithmetic row 1200 (normalize_rule arithmetic "mail" ten_a_second))
      mail
    ≡ loop_of cursor_store backend.world arithmetic.quotient 1 gcra
        (rate_rule_key arithmetic (normalize_rule arithmetic "mail" ten_a_second) row)
        (normalize_rule arithmetic "mail" ten_a_second)
        1200
        mail
checked_rule-runs_example =
    checked_rule-runs cursor_store backend.world arithmetic row "mail" capabilities ten_a_second
      (rate_limit_problem "mail" 0) no_problem refl 1 1200 mail
