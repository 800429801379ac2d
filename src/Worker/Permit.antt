-- ===== src/Worker/Permit.antt =====
-- worker.go: `tryGlobalRateLimits` and `waitForRatePermit`. The observer's events and the reported
-- errors are left out.
use goncordia.Prelude.{
  ℕ, ◌-◌, pos, Bool, true, false, ltb, if◌then◌else◌, Option, none, some, List, [], ◌∷◌, map,
}
use goncordia.Time.{Time}
use goncordia.Driver.{JobRow}
use goncordia.Driver.RateLimit.{
  RateLimitAcquireParams, Outcome, acquired, retry_at, failed, CursorStore, World,
  acquire_rate_limit,
}
use goncordia.Worker.{NormalizedRateLimit}
use goncordia.Worker.Config.{is_global}
use goncordia.Worker.Limits.{Arithmetic, rate_rule_key}
use goncordia.Worker.LocalRate.{
  Rates, KeyedRule, local_rate_delay, rollback, reserve_local_rate_limits,
}

-- The rules of a queue with their keys for a row.
unfoldable pub keyed : Arithmetic → JobRow → List NormalizedRateLimit → List KeyedRule
unfolding rate_rule_key
keyed arithmetic row rules = map (λ rule. (rate_rule_key arithmetic rule row, rule)) rules

unfoldable pub global_params :
    Arithmetic → JobRow → Time → NormalizedRateLimit → RateLimitAcquireParams
unfolding rate_rule_key
global_params arithmetic row now rule = record {
  key = rate_rule_key arithmetic rule row;
  now = now;
  limit = pos rule.limit;
  period = pos rule.period;
  burst = pos rule.burst;
  mode = rule.mode;
}

-- The backend's limits: its store of cursors, its primitive where it has one, the other processes, and
-- the fuel of one request.
pub record Backend (S : Type 0) : Type 0 where
  pub store : CursorStore S
  pub native : Option (RateLimitAcquireParams → S → S × Outcome)
  pub world : World S
  pub fuel : ℕ

-- One pass of the loop in `waitForRatePermit`: the queue's rules, the time at its start, the time of the
-- global requests and after, whether a delay is waited out, and what other jobs of the pool do before
-- the pass and during the global requests.
pub record Round (S : Type 0) : Type 0 where
  pub rules : List NormalizedRateLimit
  pub now : Time
  pub asked : Time
  pub waits : ℕ → Bool
  pub before : Rates × S → Rates × S
  pub during : Rates → Rates

pub data Verdict : Type 0 where
  undecided granted : Verdict
  refused : ℕ → Verdict

-- What the answer means to the loop: a refusal or an error is waited out.
unfoldable pub verdict : ℕ → Time → Option Outcome → Verdict
verdict poll now none = undecided
verdict poll now (some acquired) = granted
verdict poll now (some (retry_at at)) = refused (if ltb now at then at - now else poll)
verdict poll now (some (failed _)) = refused poll

module _ {S : Type 0} (arithmetic : Arithmetic) (backend : Backend S) (row : JobRow) where
  -- Each global rule in turn, up to the first that does not acquire.
  unfoldable pub try_global_rate_limits : List NormalizedRateLimit → Time → S → S × Option Outcome
  unfolding global_params is_global
  try_global_rate_limits [] now s = (s, some acquired)
  try_global_rate_limits (rule ∷ rules) now s =
      let skipped = try_global_rate_limits rules now s in
      let (s', outcome) =
        acquire_rate_limit backend.store backend.world backend.native arithmetic.quotient
          backend.fuel (global_params arithmetic row now rule) s in
      let next : S × Option Outcome = elim outcome [
        | some acquired ↦ try_global_rate_limits rules now s'
        | refusal ↦ (s', refusal)
      ] in
      if is_global rule.scope then next else skipped

  -- The loop, over the passes that its surroundings allow; `none` is that they ran out.
  unfoldable pub permit_loop : ℕ → List (Round S) → Rates × S → (Rates × S) × Option Bool
  unfolding local_rate_delay reserve_local_rate_limits rollback keyed verdict try_global_rate_limits
  permit_loop poll [] state = (state, none)
  permit_loop poll (r ∷ rounds) state =
      let (rates, s) = r.before state in
      let rules = keyed arithmetic row r.rules in
      let (touched, delay) = local_rate_delay rules r.now 0 rates in
      let waited = permit_loop poll rounds (touched, s) in
      let (reserved, held) = reserve_local_rate_limits rules r.now [] touched in
      let next : (Rates × S) × Option Bool = elim held [
        | none ↦ permit_loop poll rounds (reserved, s)
        | some rs ↦
            let (s', outcome) = try_global_rate_limits r.rules r.asked s in
            let back = rollback rs (r.during reserved) in
            elim (verdict poll r.asked outcome) [
              | undecided ↦ ((reserved, s'), none)
              | granted ↦ ((r.during reserved, s'), some true)
              | refused delay ↦
                  let again = permit_loop poll rounds (back, s') in
                  if r.waits delay then again else ((back, s'), some false)
            ]
      ] in
      if ltb 0 delay then (if r.waits delay then waited else ((touched, s), some false)) else next

  -- A queue without rules grants every permit.
  unfoldable pub wait_for_rate_permit :
      List NormalizedRateLimit → ℕ → List (Round S) → Rates × S → (Rates × S) × Option Bool
  unfolding permit_loop
  wait_for_rate_permit [] poll rounds state = (state, some true)
  wait_for_rate_permit (rule ∷ rules) poll rounds state = permit_loop poll rounds state
