-- ===== src/Worker/Config.antt =====
-- worker.go: `ValidateWorkerConfig`.
use goncordia.Prelude.{
  ℕ, suc, ◌/◌, ℤ, positive, pos_part, negative, ltb_ℤ, String, ◌=s=◌, Bool, true, false, ◌&&◌, ◌||◌,
  not, leb, if◌then◌else◌, List, [], ◌∷◌, ◌++◌,
}
use goncordia.Prelude.Assoc.{Assoc}
use goncordia.Time.{millisecond, second}
use goncordia.Driver.{Capabilities}
use goncordia.Driver.RateLimit.{RateLimitMode, fixed_window, other}
use goncordia.Worker.{
  RateLimitScope, local, global, unknown_scope, RateLimitKey, by_queue, unknown_key, QueueRateLimit,
  KeyConcurrencyLimit, QueuePolicy, WorkerConfig,
}

pub data RuleProblem : Type 0 where
  limit_negative burst_exceeds unknown_rule_scope unknown_rule_key unknown_rule_mode window_limit
        no_cas :
      RuleProblem
  key_limit_not_positive key_not_selective : RuleProblem

-- One message of the error, with the queue and the index of the rule it names.
pub data Problem : Type 0 where
  concurrency_negative max_pending_negative max_pending_below_concurrency : Problem
  queue_not_listed negative_limit : String → Problem
  rate_limit_problem key_concurrency_problem : String → ℕ → RuleProblem → Problem
  no_leases no_lifecycle no_ordering : Problem

abbrev pub problem_if : Bool → Problem → List Problem
problem_if test p = if test then p ∷ [] else []

unfoldable pub or_default : String → String
or_default queue = if queue =s= "" then "default" else queue

unfoldable pub is_member : String → List String → Bool
is_member name [] = false
is_member name (n ∷ names) = (n =s= name) || is_member name names

abbrev pub named_queues : List String → List String
named_queues [] = []
named_queues (q ∷ qs) = or_default q ∷ named_queues qs

-- The queues that a policy may name.
unfoldable pub configured_queues : List String → List String
configured_queues [] = "default" ∷ []
configured_queues (q ∷ qs) = named_queues (q ∷ qs)

unfoldable pub is_known_scope : RateLimitScope → Bool
is_known_scope (unknown_scope _) = false
is_known_scope _ = true

unfoldable pub is_known_key : RateLimitKey → Bool
is_known_key (unknown_key _) = false
is_known_key _ = true

unfoldable pub is_known_mode : RateLimitMode → Bool
is_known_mode (other _) = false
is_known_mode _ = true

unfoldable pub is_fixed_window : RateLimitMode → Bool
is_fixed_window fixed_window = true
is_fixed_window _ = false

unfoldable pub is_global : RateLimitScope → Bool
is_global global = true
is_global _ = false

unfoldable pub is_local : RateLimitScope → Bool
is_local local = true
is_local _ = false

unfoldable pub is_by_queue : RateLimitKey → Bool
is_by_queue by_queue = true
is_by_queue _ = false

-- A period that is not set is a second.
abbrev pub period_of : ℤ → ℕ
period_of period = if positive period then pos_part period else second

-- if test { problems = append(problems, problem) }, one after another
abbrev pub problems_of : List (Bool × Problem) → List Problem
problems_of [] = []
problems_of ((test, problem) ∷ rest) =
    let others = problems_of rest in if test then problem ∷ others else others

-- The checks of one rate rule, in their order.
unfoldable pub rule_checks :
    Capabilities → QueueRateLimit → (RuleProblem → Problem) → List (Bool × Problem)
unfolding is_known_scope is_known_key is_known_mode is_fixed_window is_global
rule_checks capabilities rule named =
    (negative rule.limit, named limit_negative)
    ∷ (positive rule.limit && ltb_ℤ rule.limit rule.burst, named burst_exceeds)
    ∷ (not (is_known_scope rule.scope), named unknown_rule_scope)
    ∷ (not (is_known_key rule.key), named unknown_rule_key)
    ∷ (not (is_known_mode rule.mode), named unknown_rule_mode)
    ∷ (
      is_fixed_window rule.mode
          && positive rule.limit
          && leb (period_of rule.period / millisecond) (pos_part rule.limit),
      named window_limit,
    )
    ∷ (
      is_global rule.scope && positive rule.limit && not capabilities.linearizable_cas,
      named no_cas,
    )
    ∷ []

unfoldable pub rule_problems :
    Capabilities → QueueRateLimit → (RuleProblem → Problem) → List Problem
unfolding rule_checks
rule_problems capabilities rule named = problems_of (rule_checks capabilities rule named)

unfoldable pub rules_problems : Capabilities → String → ℕ → List QueueRateLimit → List Problem
unfolding rule_problems
rules_problems capabilities queue i [] = []
rules_problems capabilities queue i (rule ∷ rules) =
    rule_problems capabilities rule (rate_limit_problem queue i)
    ++ rules_problems capabilities queue (suc i) rules

unfoldable pub keys_problems : String → ℕ → List KeyConcurrencyLimit → List Problem
unfolding is_known_key is_by_queue
keys_problems queue i [] = []
keys_problems queue i (rule ∷ rules) =
    problem_if (not (positive rule.limit)) (key_concurrency_problem queue i key_limit_not_positive)
    ++ problem_if (is_by_queue rule.key || not (is_known_key rule.key))
        (key_concurrency_problem queue i key_not_selective)
    ++ keys_problems queue (suc i) rules

unfoldable pub policy_problems : Capabilities → List String → String → QueuePolicy → List Problem
unfolding rules_problems keys_problems is_member
policy_problems capabilities queues queue policy =
    problem_if (not (is_member queue queues)) (queue_not_listed queue)
    ++ problem_if
        (negative policy.weight || negative policy.concurrency || negative policy.rate_limit)
        (negative_limit queue)
    ++ rules_problems capabilities queue 0 policy.rate_limits
    ++ keys_problems queue 0 policy.key_concurrency

unfoldable pub policies_problems : Capabilities → List String → Assoc QueuePolicy → List Problem
unfolding policy_problems
policies_problems capabilities queues [] = []
policies_problems capabilities queues ((queue, policy) ∷ policies) =
    policy_problems capabilities queues queue policy
    ++ policies_problems capabilities queues policies

unfoldable pub capacity_problems : WorkerConfig → List Problem
capacity_problems cfg =
    problem_if (negative cfg.concurrency) concurrency_negative
    ++ problem_if (negative cfg.max_pending) max_pending_negative
    ++ problem_if
        (positive cfg.concurrency
          && positive cfg.max_pending
          && ltb_ℤ cfg.max_pending cfg.concurrency)
        max_pending_below_concurrency

unfoldable pub capability_problems : Capabilities → WorkerConfig → List Problem
capability_problems capabilities cfg =
    problem_if (cfg.distributed_pipelines && not capabilities.linearizable_leases) no_leases
    ++ problem_if (cfg.require_lifecycle_persistence && not capabilities.lifecycle_timestamps)
        no_lifecycle
    ++ problem_if (cfg.require_strict_ordering && not capabilities.strict_fetch_ordering)
        no_ordering

-- The problems of a configuration; none of them is a valid configuration.
unfoldable pub validate_worker_config : Capabilities → WorkerConfig → List Problem
unfolding capacity_problems policies_problems capability_problems configured_queues
validate_worker_config capabilities cfg =
    capacity_problems cfg
    ++ policies_problems capabilities (configured_queues cfg.queues) cfg.queue_policies
    ++ capability_problems capabilities cfg
