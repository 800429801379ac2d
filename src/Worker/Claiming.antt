-- ===== src/Worker/Claiming.antt =====
-- The claiming loop ends by itself.
use goncordia.Prelude.{
  ℕ, zero, suc, ◌+◌, ◌-◌, ◌*◌, ◌≤◌, ◌<◌, ◌≡◌, refl, ap, ◌∙◌, inl, inr, ◌⊎◌, true, false, ◌==◌, [],
  ◌∷◌, length, Bool-cases, arith,
}
use native.Mathlib.Nat.{suc-mul}
use goncordia.Driver.{Result-cases}
use goncordia.Driver.Executor.{Executor}
use goncordia.Worker.Dispatch.{
  States, queue_can_claim, Claiming, Claims, fetch_of, queue_at, index_panics, claim_step,
  settle_fetch, claim_round, is_claiming, claim_loop, fetch_and_dispatch,
}

-- The rounds that the loop has left at most.
abbrev budget : ℕ → ℕ → ℕ → ℕ
budget free misses slots = free * slots + (slots - misses)

times_next : (n m : ℕ) → (n + 1) * m ≡ n * m + m
times_next n m = let next : n + 1 ≡ suc n = omega arith in ap (λ k. k * m) next ∙ suc-mul n m

module _ {S : Type 0} (exec : Executor S) (pool : Claiming) where
  -- A round finds nothing, or takes one place.
  round-counts :
      (c : Claims) (s : S)
      → (((claim_round exec pool c s).0.misses ≡ suc c.misses)
          × ((claim_round exec pool c s).0.free ≡ c.free))
        ⊎ (((claim_round exec pool c s).0.misses ≡ 0)
            × ((claim_round exec pool c s).0.free ≡ c.free - 1))
  unfolding claim_round settle_fetch
  round-counts c s =
      elim (Bool-cases (queue_can_claim pool.policies (queue_at pool c.cursor) c.states).1) [
        | inr full ↦ inl (rw (full, claim_round) refl, rw (full, claim_round) refl)
        | inl room ↦
            elim (Result-cases
              (exec.job_fetch_batch s (fetch_of pool (queue_at pool c.cursor))).1) [
                | inl (e, failed) ↦
                    inl (rw (room, claim_round, failed) refl, rw (room, claim_round, failed) refl)
                | inr ([], found) ↦
                    inl (rw (room, claim_round, found) refl, rw (room, claim_round, found) refl)
                | inr (row ∷ rows, found) ↦
                    inr (rw (room, claim_round, found) refl, rw (room, claim_round, found) refl)
              ]
      ]

  budget-decreases :
      (free free' misses misses' slots fuel : ℕ)
      → 0 < free
      → misses < slots
      → ((misses' ≡ suc misses) × (free' ≡ free)) ⊎ ((misses' ≡ 0) × (free' ≡ free - 1))
      → budget free misses slots ≤ suc fuel
      → (misses' ≤ slots) × (budget free' misses' slots ≤ fuel)
  budget-decreases free free' misses misses' slots fuel some_free some_left (inl (m, f)) enough =
      let same : free' * slots ≡ free * slots = ap (λ n. n * slots) f in (omega arith, omega arith)
  budget-decreases zero free' misses misses' slots fuel some_free some_left (inr (m, f)) enough =
      absurd (omega arith)
  budget-decreases (suc free) free' misses misses' slots fuel some_free some_left (inr (m, f))
        enough =
      let one_less : free' ≡ free = omega arith in
      let same : free' * slots ≡ free * slots = ap (λ n. n * slots) one_less in
      let more : suc free * slots ≡ free * slots + slots = suc-mul free slots in
      (omega arith, omega arith)

  -- A loop that has panicked has ended.
  panicked-ends :
      (fuel : ℕ) (c : Claims) (s : S)
      → c.panicked ≡ true
      → is_claiming pool (claim_loop exec pool fuel c s).0 ≡ false
  unfolding claim_loop is_claiming
  panicked-ends zero c s over = rw over refl
  panicked-ends (suc fuel) c s over = rw (over, claim_loop) refl

  loop-ends :
      (fuel : ℕ) (c : Claims) (s : S)
      → c.misses ≤ length pool.schedule
      → budget c.free c.misses (length pool.schedule) ≤ fuel
      → is_claiming pool (claim_loop exec pool fuel c s).0 ≡ false
  unfolding claim_loop is_claiming claim_step
  loop-ends zero c s bound enough = ground arith
  loop-ends (suc fuel) c s bound enough = elim (Bool-cases (is_claiming pool c)) [
    | inr over ↦ rw (over, claim_loop) over
    | inl going ↦ elim (Bool-cases (index_panics pool c.cursor)) [
      | inl panics ↦ rw (going, claim_loop, panics) (panicked-ends fuel _ s refl)
      | inr fine ↦
          let some_free : 0 < c.free = ground arith in
          let some_left : c.misses < length pool.schedule = ground arith in
          let (c', s') = claim_round exec pool c s in
          let next =
            budget-decreases c.free c'.free c.misses c'.misses (length pool.schedule) fuel some_free
              some_left (round-counts c s) enough in
          rw (going, claim_loop, fine) (loop-ends fuel c' s' next.0 next.1)
    ]
  ]

  pub claim_loop-ends :
      (c : Claims) (s : S)
      → c.misses ≡ 0
      → is_claiming pool (claim_loop exec pool ((c.free + 1) * length pool.schedule) c s).0 ≡ false
  claim_loop-ends c s none_missed =
      loop-ends ((c.free + 1) * length pool.schedule) c s (omega arith)
        (omega (arith, times_next c.free (length pool.schedule)))

  module _ (max_pending pending cursor : ℕ) (states : States) (s : S) where
    -- The loop of a pool that is not shutting down ends by its own condition: the room is used up, or
    -- as many slots in a row as the schedule has gave nothing, or the index panicked.
    pub fetch_and_dispatch-ends :
        is_claiming pool (fetch_and_dispatch exec pool false max_pending pending cursor states s).0
        ≡ false
    unfolding fetch_and_dispatch is_claiming
    fetch_and_dispatch-ends = elim (Bool-cases (max_pending - pending == 0)) [
      | inl full ↦ rw (full, fetch_and_dispatch) (ground arith)
      | inr room ↦
          rw (room, fetch_and_dispatch)
            (claim_loop-ends
              (record {
                cursor = cursor;
                states = states;
                free = max_pending - pending;
                misses = 0;
                started = [];
                panicked = false;
              })
              s refl)
    ]
