-- ===== src/Worker/Limits.antt =====
-- worker.go: `normalizeRateLimits`, the keys of rate rules, and `UpdateQueuePolicy`. SHA-256 with
-- its hexadecimal digits is a parameter, as is the quotient of floats.
use goncordia.Prelude.{
  ℕ, suc, ◌+◌, ◌-◌, ◌*◌, positive, pos_part, ltb, String, starts_with, text_ltb, if◌then◌else◌,
  List, [], ◌∷◌, ◌++◌, keep, ◌⊎◌, inl, inr,
}
use Prim.Native.String.{◌++◌ as ◌+s+◌}
use goncordia.Prelude.Assoc.{Assoc, insert}
use goncordia.Prelude.Sort.{sort}
use goncordia.Prelude.Decimal.{format_uint}
use goncordia.Driver.{JobRow, Capabilities}
use goncordia.Driver.RateLimit.{RateLimitMode, gcra, fixed_window, other, rate_interval}
use goncordia.Worker.{
  RateLimitScope, local, global, unknown_scope, RateLimitKey, by_queue, by_kind, by_pipeline,
  by_tag, unknown_key, QueueRateLimit, QueuePolicy, NormalizedRateLimit, WorkerConfig,
}
use goncordia.Worker.Config.{
  Problem, is_member, is_by_queue, period_of, validate_worker_config, or_default,
}
use goncordia.Worker.Defaults.{queue_schedule}

-- The two parameters.
pub record Arithmetic : Type 0 where
  pub quotient : ℕ → ℕ → ℕ
  pub digest : String → String

unfoldable pub key_code : RateLimitKey → ℕ
key_code by_queue = 0
key_code by_kind = 1
key_code by_pipeline = 2
key_code by_tag = 3
key_code (unknown_key n) = n + 4

unfoldable pub mode_code : RateLimitMode → ℕ
mode_code gcra = 0
mode_code fixed_window = 1
mode_code (other n) = n

-- A scope that is not global is local.
unfoldable pub normal_scope : RateLimitScope → RateLimitScope
normal_scope global = global
normal_scope _ = local

unfoldable pub scope_code : RateLimitScope → ℕ
scope_code local = 0
scope_code global = 1
scope_code (unknown_scope n) = n + 2

-- The burst of a rule with a positive limit: at least 1, at most the limit.
unfoldable pub burst_of : QueueRateLimit → ℕ
burst_of rule =
    let burst = if positive rule.burst then pos_part rule.burst else 1 in
    if ltb (pos_part rule.limit) burst then pos_part rule.limit else burst

unfoldable pub signature_of : QueueRateLimit → String
unfolding burst_of key_code mode_code normal_scope scope_code
signature_of rule =
    format_uint (pos_part rule.limit)
    +s+ ":"
    +s+ format_uint (period_of rule.period)
    +s+ ":"
    +s+ format_uint (burst_of rule)
    +s+ ":"
    +s+ format_uint (scope_code (normal_scope rule.scope))
    +s+ ":"
    +s+ format_uint (key_code rule.key)
    +s+ ":"
    +s+ rule.tag_prefix
    +s+ ":"
    +s+ format_uint (mode_code rule.mode)

unfoldable pub normalize_rule : Arithmetic → String → QueueRateLimit → NormalizedRateLimit
unfolding signature_of burst_of normal_scope
normalize_rule arithmetic queue rule =
    let interval =
      rate_interval arithmetic.quotient (period_of rule.period) (pos_part rule.limit) in
    record {
      key = "goncordia:rate:" +s+ arithmetic.digest (queue +s+ "\0" +s+ signature_of rule);
      limit = pos_part rule.limit;
      burst = burst_of rule;
      period = period_of rule.period;
      interval = interval;
      tolerance = interval * (burst_of rule - 1);
      scope = normal_scope rule.scope;
      key_by = rule.key;
      tag_prefix = rule.tag_prefix;
      mode = rule.mode;
    }

-- The rules with a positive limit, each signature once.
unfoldable pub normalize_rules :
    Arithmetic → String → List String → List QueueRateLimit → List NormalizedRateLimit
unfolding normalize_rule signature_of
normalize_rules arithmetic queue seen [] = []
normalize_rules arithmetic queue seen (rule ∷ rules) =
    let skipped = normalize_rules arithmetic queue seen rules in
    let rest = normalize_rules arithmetic queue (signature_of rule ∷ seen) rules in
    if positive rule.limit
    then (if is_member (signature_of rule) seen
        then skipped
        else normalize_rule arithmetic queue rule ∷ rest)
    else skipped

-- The deprecated limit of a policy is one more rule.
unfoldable pub configured_rules : QueuePolicy → List QueueRateLimit
configured_rules policy =
    policy.rate_limits
    ++ (if positive policy.rate_limit
        then (record {
          limit = policy.rate_limit;
          period = policy.rate_period;
          burst = policy.rate_limit;
          scope = local;
          key = by_queue;
          tag_prefix = "";
          mode = gcra;
        })
          ∷ []
        else [])

unfoldable pub normalize_rate_limits : Arithmetic → String → QueuePolicy → List NormalizedRateLimit
unfolding normalize_rules configured_rules
normalize_rate_limits arithmetic queue policy =
    normalize_rules arithmetic queue [] (configured_rules policy)

abbrev head_or : String → List String → String
head_or d [] = d
head_or d (t ∷ ts) = t

unfoldable pub rate_limit_key_value : RateLimitKey → String → JobRow → String
rate_limit_key_value by_kind prefix row = row.kind
rate_limit_key_value by_pipeline prefix row = row.pipeline_id
rate_limit_key_value by_tag prefix row =
    head_or "<missing>" (sort text_ltb (keep (λ t. starts_with t prefix) row.tags))
rate_limit_key_value _ prefix row = row.queue

unfoldable pub rate_rule_key : Arithmetic → NormalizedRateLimit → JobRow → String
unfolding rate_limit_key_value is_by_queue
rate_rule_key arithmetic rule row =
    if is_by_queue rule.key_by
    then rule.key
    else rule.key
      +s+ ":"
      +s+ arithmetic.digest
          (rule.key +s+ "\0" +s+ rate_limit_key_value rule.key_by rule.tag_prefix row)

-- What a policy update writes: the policies, the rules by queue, and the schedule. `changes` counts
-- the wake-ups of the jobs that wait for a rate permit.
pub record Policies : Type 0 where
  pub config : WorkerConfig
  pub rate_limits : Assoc (List NormalizedRateLimit)
  pub schedule : List String
  pub changes : ℕ

pub data UpdateError : Type 0 where
  not_configured : UpdateError
  invalid : List Problem → UpdateError

-- The update of a queue that is configured.
unfoldable pub replace_policy : Arithmetic → Policies → String → QueuePolicy → Policies
unfolding normalize_rate_limits queue_schedule
replace_policy arithmetic pool queue policy =
    let policies = insert queue policy pool.config.queue_policies in
    record {
      config = record pool.config { queue_policies = policies };
      rate_limits = insert queue (normalize_rate_limits arithmetic queue policy) pool.rate_limits;
      schedule = queue_schedule policies pool.config.queues;
      changes = suc pool.changes;
    }

abbrev checked : List Problem → Policies → UpdateError ⊎ Policies
checked [] pool = inr pool
checked (p ∷ ps) pool = inl (invalid (p ∷ ps))

unfoldable pub update_queue_policy :
    Arithmetic → Capabilities → Policies → String → QueuePolicy → UpdateError ⊎ Policies
unfolding replace_policy validate_worker_config
update_queue_policy arithmetic capabilities pool name policy =
    let queue = or_default name in
    let next = replace_policy arithmetic pool queue policy in
    if is_member queue pool.config.queues
    then checked (validate_worker_config capabilities next.config) next
    else inl not_configured
