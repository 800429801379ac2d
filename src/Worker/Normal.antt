-- ===== src/Worker/Normal.antt =====
-- What `normalizeRateLimits` makes of any rules, and that a rule which passed the validation is one
-- that the distributed rate limits accept.
use goncordia.Prelude.{
  ℕ, ◌-◌, ◌/◌, ◌≤◌, ◌<◌, ◌≡◌, refl, ◌∙◌, inl, inr, pos, positive, pos_part, ltb, leb, String, ◌=s=◌,
  Bool, true, false, ◌&&◌, not, Option, none, List, [], ◌∷◌, Bool-cases, arith, All,
}
use Prim.Native.String.{◌++◌ as ◌+s+◌}
use Prim.Native.String.compare
use Prim.Native.String.append
use goncordia.Time.{Time, truncate, millisecond}
use goncordia.Driver.{JobRow, Capabilities}
use goncordia.Driver.RateLimit.{
  RateLimitMode, gcra, fixed_window, other, rate_interval, CursorStore, World, Outcome, gcra_loop,
  window_loop, multiply_duration, burst_or_one, acquire_rate_limit, dispatch, acquire_fixed_window,
}
use goncordia.Worker.{QueueRateLimit, QueuePolicy, NormalizedRateLimit}
use goncordia.Worker.Config.{
  Problem, RuleProblem, problems_of, rule_checks, rule_problems, is_member, is_fixed_window,
  is_known_mode, is_by_queue, period_of,
}
use goncordia.Worker.Limits.{
  Arithmetic, burst_of, signature_of, normalize_rule, normalize_rules, configured_rules,
  normalize_rate_limits, rate_rule_key,
}
use goncordia.Worker.Permit.{global_params}

-- The bounds of a rule.
abbrev pub IsNormal : NormalizedRateLimit → Type 0
IsNormal rule =
    (0 < rule.period) × (0 < rule.interval) × (1 ≤ rule.burst) × (rule.burst ≤ rule.limit)

normalize_rule-IsNormal :
    (arithmetic : Arithmetic) (queue : String) (rule : QueueRateLimit)
    → positive rule.limit ≡ true
    → IsNormal (normalize_rule arithmetic queue rule)
unfolding normalize_rule burst_of rate_interval
normalize_rule-IsNormal arithmetic queue rule limited =
    (ground arith, ground arith, ground arith, ground arith)

normalize_rules-IsNormal :
    (arithmetic : Arithmetic) (queue : String) (seen : List String) (rules : List QueueRateLimit)
    → All IsNormal (normalize_rules arithmetic queue seen rules)
unfolding normalize_rules
normalize_rules-IsNormal arithmetic queue seen [] = tt
normalize_rules-IsNormal arithmetic queue seen (rule ∷ rules) =
    elim (Bool-cases (positive rule.limit)) [
      | inr disabled ↦
          rw (disabled, normalize_rules) (normalize_rules-IsNormal arithmetic queue seen rules)
      | inl limited ↦ elim (Bool-cases (is_member (signature_of rule) seen)) [
        | inl again ↦
            rw (limited, normalize_rules, again)
              (normalize_rules-IsNormal arithmetic queue seen rules)
        | inr new ↦
            rw (limited, normalize_rules, new)
              (
                normalize_rule-IsNormal arithmetic queue rule limited,
                normalize_rules-IsNormal arithmetic queue (signature_of rule ∷ seen) rules,
              )
      ]
    ]

pub normalize_rate_limits-IsNormal :
    (arithmetic : Arithmetic) (queue : String) (policy : QueuePolicy)
    → All IsNormal (normalize_rate_limits arithmetic queue policy)
unfolding normalize_rate_limits
normalize_rate_limits-IsNormal arithmetic queue policy =
    normalize_rules-IsNormal arithmetic queue [] (configured_rules policy)

abbrev IsPassed : Bool × Problem → Type 0
IsPassed (test, problem) = test ≡ false

problems_of-none : (checks : List (Bool × Problem)) → problems_of checks ≡ [] → All IsPassed checks
problems_of-none [] e = tt
problems_of-none ((true, problem) ∷ checks) e = cc
problems_of-none ((false, problem) ∷ checks) e = (refl, problems_of-none checks e)

rule_checks-IsPassed :
    (capabilities : Capabilities) (rule : QueueRateLimit) (named : RuleProblem → Problem)
    → rule_problems capabilities rule named ≡ []
    → All IsPassed (rule_checks capabilities rule named)
unfolding rule_problems
rule_checks-IsPassed capabilities rule named e =
    problems_of-none (rule_checks capabilities rule named) e

append-named : (a b : String) → (a =s= "") ≡ false → ((a +s+ b) =s= "") ≡ false
append-named String.[] b e = cc
append-named (String.◌∷◌ c t) b e = rw (append.cons c t b) (rw (compare.cons-nil c (t +s+ b)) refl)

rate_rule_key-named :
    (arithmetic : Arithmetic) (queue : String) (rule : QueueRateLimit) (row : JobRow)
    → (rate_rule_key arithmetic (normalize_rule arithmetic queue rule) row =s= "") ≡ false
unfolding rate_rule_key normalize_rule
rate_rule_key-named arithmetic queue rule row =
    let named : ((normalize_rule arithmetic queue rule).key =s= "") ≡ false =
      append-named "goncordia:rate:" (arithmetic.digest (queue +s+ "\0" +s+ signature_of rule))
        refl in
    elim (Bool-cases (is_by_queue rule.key)) [
      | inl shared ↦ rw (shared, rate_rule_key) named
      | inr own ↦
          rw (own, rate_rule_key) (append-named (normalize_rule arithmetic queue rule).key _ named)
    ]

module _ {S : Type 0} (db : CursorStore S) (world : World S) (quotient : ℕ → ℕ → ℕ) (fuel : ℕ) where
  -- The loop of a mode, with the numbers of a normalized rule.
  abbrev pub loop_of : RateLimitMode → String → NormalizedRateLimit → Time → S → S × Option Outcome
  loop_of fixed_window key rule now s =
      window_loop db world fuel key (truncate now rule.period) rule.period rule.limit s
  loop_of _ key rule now s =
      gcra_loop db world fuel key now rule.interval
        (multiply_duration rule.interval (rule.burst - 1)) s

  dispatched :
      (mode : RateLimitMode) (key : String) (rule : NormalizedRateLimit) (now : Time) (s : S)
      → not (is_known_mode mode) ≡ false
      → (is_fixed_window mode && leb (rule.period / millisecond) rule.limit) ≡ false
      → rule.interval ≡ rate_interval quotient rule.period rule.limit
      → 1 ≤ rule.burst
      → dispatch db world quotient fuel
          (record {
            key = key;
            now = now;
            limit = pos rule.limit;
            period = pos rule.period;
            burst = pos rule.burst;
            mode = mode;
          })
          s
        ≡ loop_of mode key rule now s
  unfolding dispatch acquire_fixed_window is_known_mode is_fixed_window burst_or_one
  dispatched gcra key rule now s known wide paced full =
      let burst : burst_or_one (pos rule.burst) ≡ rule.burst = ground arith in
      rw (burst, paced) refl
  dispatched fixed_window key rule now s known wide paced full =
      let wide' : leb (rule.period / millisecond) rule.limit ≡ false = ground arith in rw wide' refl
  dispatched (other n) key rule now s known wide paced full = cc

module _ {S : Type 0} (db : CursorStore S) (world : World S) (arithmetic : Arithmetic)
    (row : JobRow) (queue : String) (capabilities : Capabilities) (rule : QueueRateLimit)
    (named : RuleProblem → Problem) where
  abbrev normal : NormalizedRateLimit
  normal = normalize_rule arithmetic queue rule

  accepted :
      positive rule.limit ≡ true
      → (fuel : ℕ) (now : Time) (s : S)
      → acquire_rate_limit db world none arithmetic.quotient fuel
          (global_params arithmetic row now normal)
          s
        ≡ dispatch db world arithmetic.quotient fuel (global_params arithmetic row now normal) s
  unfolding acquire_rate_limit global_params normalize_rule burst_of burst_or_one
  accepted limited fuel now s =
      let has_limit : ltb 0 (pos_part rule.limit) ≡ true = ground arith in
      let has_period : ltb 0 (period_of rule.period) ≡ true = ground arith in
      let within : ltb (pos_part rule.limit) (burst_or_one (pos (burst_of rule))) ≡ false =
        ground arith in
      rw (rate_rule_key-named arithmetic queue rule row, has_limit, has_period, within) refl

  -- A rule of a queue that is enabled and has no problem in the validation is never refused by
  -- `AcquireRateLimit` for its parameters, on a store without a primitive of its own: the request
  -- runs the loop of the rule's mode, which is GCRA or fixed windows, with the normalized interval,
  -- burst, period and limit.
  pub checked_rule-runs :
      rule_problems capabilities rule named ≡ []
      → positive rule.limit ≡ true
      → (fuel : ℕ) (now : Time) (s : S)
      → acquire_rate_limit db world none arithmetic.quotient fuel
          (global_params arithmetic row now normal)
          s
        ≡ loop_of db world arithmetic.quotient fuel rule.mode
            (rate_rule_key arithmetic normal row)
            normal
            now
            s
  unfolding rule_checks global_params normalize_rule
  checked_rule-runs valid limited fuel now s =
      let passed = rule_checks-IsPassed capabilities rule named valid in
      let wide : (is_fixed_window rule.mode
            && leb (period_of rule.period / millisecond) (pos_part rule.limit))
          ≡ false =
        ground (arith, passed.1.1.1.1.1.0, limited) in
      accepted limited fuel now s
      ∙ dispatched db world arithmetic.quotient fuel rule.mode (rate_rule_key arithmetic normal row)
          normal now s passed.1.1.1.1.0 wide refl
          (normalize_rule-IsNormal arithmetic queue rule limited).2
