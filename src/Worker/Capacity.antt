-- ===== src/Worker/Capacity.antt =====
-- The pool claims no more than it has room for, and keeps each queue's count of active jobs within the
-- queue's limit.
use goncordia.Prelude.{
  ◌%◌, ◌^◌, ℕ, zero, suc, ◌+◌, ◌-◌, ◌*◌, ◌≤◌, ◌<◌, ◌≡◌, refl, sym, ap, subst, ◌∙◌, inl, inr,
  positive, pos_part, String, ◌=s=◌, eq_iff, Bool, true, false, ◌||◌, ◌==◌, if◌then◌else◌, List, [],
  ◌∷◌, ◌++◌, length, length-append, Bool-cases, Option-cases, arith,
}
use goncordia.Prelude.Assoc.{Assoc, lookup, lookup-insert}
use goncordia.Prelude.Sort.{sort, length-sort}
use goncordia.Driver.{JobRow, ok, Result-cases}
use goncordia.Driver.Executor.{Executor}
use goncordia.Worker.{QueuePolicy}
use goncordia.Worker.Defaults.{policy_of}
use goncordia.Worker.Dispatch.{
  States, no_jobs, state_at, ensure_state, at_capacity, queue_can_claim, queue_claimed, row_before,
  Claiming, Claims, fetch_of, queue_at, index_panics, claim_step, settle_fetch, claim_round,
  is_claiming, claim_loop, fetch_and_dispatch,
}

-- Each queue with a limit has at most that many active jobs.
abbrev pub IsWithin : Assoc QueuePolicy → States → Type 0
IsWithin policies states =
    (queue : String)
    → positive (policy_of policies queue).concurrency ≡ true
    → (state_at queue states).active ≤ pos_part (policy_of policies queue).concurrency

pub state_at-ensure :
    (made queue : String) (states : States)
    → state_at queue (ensure_state made states) ≡ state_at queue states
unfolding ensure_state state_at
state_at-ensure made queue states = elim (Option-cases (lookup made states)) [
  | inl e ↦ ground (arith, e, lookup-insert made queue no_jobs states, eq_iff made queue)
  | inr (state, e) ↦ rw (e, ensure_state) refl
]

pub active-claimed :
    (claimed queue : String) (states : States)
    → (state_at queue (queue_claimed claimed states)).active ≡ (
        if claimed =s= queue
        then suc (state_at claimed states).active
        else (state_at queue states).active)
unfolding queue_claimed state_at
active-claimed claimed queue states = ground (
  arith,
  lookup-insert claimed queue
      (record (state_at claimed states) { active = suc (state_at claimed states).active }) states,
)

module _ {S : Type 0} (exec : Executor S) (pool : Claiming) where
  -- What one more active job of a queue that has room keeps.
  claimed-IsWithin :
      (queue : String) (states : States)
      → at_capacity (policy_of pool.policies queue) (state_at queue states).active ≡ false
      → IsWithin pool.policies states
      → IsWithin pool.policies (queue_claimed queue states)
  unfolding at_capacity
  claimed-IsWithin queue states room within other limited = elim (Bool-cases (queue =s= other)) [
    | inr apart ↦ ground (arith, active-claimed queue other states, apart, within other limited)
    | inl same ↦
        let one : queue ≡ other = (eq_iff queue other).0 same in
        let limited' : positive (policy_of pool.policies queue).concurrency ≡ true =
          ap (λ q. positive (policy_of pool.policies q).concurrency) one ∙ limited in
        let below : suc (state_at queue states).active
            ≤ pos_part (policy_of pool.policies queue).concurrency =
          ground (arith, room, limited') in
        let counted : (state_at other (queue_claimed queue states)).active
            ≡ suc (state_at queue states).active =
          ground (arith, active-claimed queue other states, same) in
        subst (λ n. n ≤ pos_part (policy_of pool.policies other).concurrency) (sym counted)
          (subst
            (λ q.
              suc (state_at queue states).active ≤ pos_part (policy_of pool.policies q).concurrency)
            one below)
  ]

  abbrev ensured : Claims → States
  ensured c = ensure_state (queue_at pool c.cursor) c.states

  ensured-IsWithin :
      (c : Claims) → IsWithin pool.policies c.states → IsWithin pool.policies (ensured c)
  ensured-IsWithin c within queue limited =
      subst (λ x. x.active ≤ pos_part (policy_of pool.policies queue).concurrency)
        (sym (state_at-ensure (queue_at pool c.cursor) queue c.states)) (within queue limited)

  -- A driver that gives at most one row to a fetch of one.
  abbrev pub FetchesOne : Type 0
  FetchesOne =
      (s : S) (queue : String) (rows : List JobRow)
      → (exec.job_fetch_batch s (fetch_of pool queue)).1 ≡ ok rows
      → length rows ≤ 1

  round-keeps :
      (c : Claims) (s : S)
      → FetchesOne
      → is_claiming pool c ≡ true
      → IsWithin pool.policies c.states
      → IsWithin pool.policies (claim_round exec pool c s).0.states
        × (length (claim_round exec pool c s).0.started + (claim_round exec pool c s).0.free
            ≤ length c.started + c.free)
  unfolding claim_round settle_fetch queue_can_claim is_claiming
  round-keeps c s ones going within =
      let queue = queue_at pool c.cursor in
      let kept = ensured-IsWithin c within in
      elim (Bool-cases
        (at_capacity (policy_of pool.policies queue) (state_at queue c.states).active)) [
          | inl full ↦ rw (full, claim_round, queue_can_claim) (kept, omega arith)
          | inr room ↦ elim (Result-cases (exec.job_fetch_batch s (fetch_of pool queue)).1) [
            | inl (e, failed) ↦ rw (room, claim_round, queue_can_claim, failed) (kept, omega arith)
            | inr ([], found) ↦ rw (room, claim_round, queue_can_claim, found) (kept, omega arith)
            | inr (row ∷ rows, found) ↦
                let some_free : 0 < c.free = ground arith in
                let fewer : length (c.started ++ sort row_before (row ∷ rows)) + (c.free - 1)
                    ≤ length c.started + c.free =
                  omega (
                    arith,
                    length-append c.started (sort row_before (row ∷ rows)),
                    length-sort row_before (row ∷ rows),
                    ones s queue (row ∷ rows) found,
                  ) in
                let roomy : at_capacity (policy_of pool.policies queue)
                      (state_at queue (ensured c)).active
                    ≡ false =
                  ap (λ x. at_capacity (policy_of pool.policies queue) x.active)
                    (state_at-ensure queue queue c.states)
                  ∙ room in
                rw (room, claim_round, queue_can_claim, found)
                  (claimed-IsWithin queue (ensured c) roomy kept, fewer)
          ]
        ]

  loop-keeps :
      (fuel : ℕ) (c : Claims) (s : S)
      → FetchesOne
      → IsWithin pool.policies c.states
      → IsWithin pool.policies (claim_loop exec pool fuel c s).0.states
        × (length (claim_loop exec pool fuel c s).0.started + (claim_loop exec pool fuel c s).0.free
            ≤ length c.started + c.free)
  unfolding claim_loop claim_step
  loop-keeps zero c s ones within = (within, omega arith)
  loop-keeps (suc fuel) c s ones within = elim (Bool-cases (is_claiming pool c)) [
    | inr over ↦ rw (over, claim_loop) (within, omega arith)
    | inl going ↦ elim (Bool-cases (index_panics pool c.cursor)) [
      | inl panics ↦
          rw (going, claim_loop, panics)
            (loop-keeps fuel (record c { cursor = (c.cursor + 1) % 2 ^ 64; panicked = true }) s ones
              within)
      | inr fine ↦
          let (c', s') = claim_round exec pool c s in
          let next = round-keeps c s ones going within in
          let rest = loop-keeps fuel c' s' ones next.0 in
          rw (going, claim_loop, fine) (rest.0, omega (arith, rest.1, next.1))
    ]
  ]

  module _ (max_pending pending cursor : ℕ) (states : States) (s : S) where
    -- With a driver that gives at most one row to a fetch of one, the jobs that are started and those
    -- that are pending fit in the pool, and no queue's count of active jobs comes above its limit, where
    -- none was and the pending jobs fitted before.
    pub fetch_and_dispatch-fits :
        (shutting_down : Bool)
        → FetchesOne
        → pending ≤ max_pending
        → IsWithin pool.policies states
        → IsWithin pool.policies
            (fetch_and_dispatch exec pool shutting_down max_pending pending cursor states
              s).0.states
          × (pending
                + length
                    (fetch_and_dispatch exec pool shutting_down max_pending pending cursor states
                      s).0.started
              ≤ max_pending)
    unfolding fetch_and_dispatch
    fetch_and_dispatch-fits shutting_down ones fits within =
        elim (Bool-cases (shutting_down || max_pending - pending == 0)) [
          | inl stopped ↦ rw (stopped, fetch_and_dispatch) (within, omega arith)
          | inr going ↦
              let start : Claims = record {
                cursor = cursor;
                states = states;
                free = max_pending - pending;
                misses = 0;
                started = [];
                panicked = false;
              } in
              let kept =
                loop-keeps ((max_pending - pending + 1) * length pool.schedule) start s ones
                  within in
              rw (going, fetch_and_dispatch) (kept.0, omega (arith, kept.1))
        ]
