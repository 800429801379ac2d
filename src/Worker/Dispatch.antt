-- ===== src/Worker/Dispatch.antt =====
-- worker.go: the claiming half of `fetchAndDispatch`, with the counts of active jobs by queue. The
-- mutex of fetches is held throughout; what a started job does is the other files'. An error of a
-- fetch is reported and counts as a miss.
use goncordia.Prelude.{
  ℕ, zero, suc, ◌+◌, ◌-◌, ◌*◌, ◌%◌, ◌^◌, ℤ, pos, positive, pos_part, String, Bool, ◌&&◌, ◌||◌, not,
  true, false, ltb, leb, ltb_ℤ, eqb_ℤ, ◌==◌, text_ltb, if◌then◌else◌, none, some, List, [], ◌∷◌,
  ◌++◌, length,
}
use goncordia.Prelude.Assoc.{Assoc, lookup, insert}
use goncordia.Prelude.Sort.{sort}
use goncordia.Driver.{JobRow, FetchParams, ok, err}
use goncordia.Driver.Executor.{Executor}
use goncordia.Worker.{QueuePolicy}
use goncordia.Worker.Defaults.{policy_of}
use goncordia.Worker.LocalRate.{Rates}

pub record QueueRuntimeState : Type 0 where
  pub active : ℕ
  pub rates : Rates

abbrev pub States : Type 0
States = Assoc QueueRuntimeState

abbrev pub no_jobs : QueueRuntimeState
no_jobs = record { active = 0; rates = [] }

unfoldable pub state_at : String → States → QueueRuntimeState
state_at queue states = elim (lookup queue states) [ none ↦ no_jobs | some state ↦ state ]

-- A queue's state is made where it is missing.
unfoldable pub ensure_state : String → States → States
ensure_state queue states = elim (lookup queue states) [
  | none ↦ insert queue no_jobs states
  | some _ ↦ states
]

unfoldable pub at_capacity : QueuePolicy → ℕ → Bool
at_capacity policy active = positive policy.concurrency && leb (pos_part policy.concurrency) active

unfoldable pub queue_can_claim : Assoc QueuePolicy → String → States → States × Bool
unfolding ensure_state state_at at_capacity policy_of
queue_can_claim policies queue states = (
  ensure_state queue states,
  not (at_capacity (policy_of policies queue) (state_at queue states).active),
)

unfoldable pub queue_claimed : String → States → States
unfolding state_at
queue_claimed queue states =
    let state = state_at queue states in
    insert queue (record state { active = suc state.active }) states

-- A count that is 0 stays.
unfoldable pub queue_done : String → States → States
queue_done queue states = elim (lookup queue states) [
  | none ↦ states
  | some state ↦ insert queue (record state { active = state.active - 1 }) states
]

-- The order in which the rows of one fetch are started.
unfoldable pub row_before : JobRow → JobRow → Bool
row_before a b =
    if not (eqb_ℤ a.priority b.priority)
    then ltb_ℤ b.priority a.priority
    else if not (a.run_at == b.run_at)
    then ltb a.run_at b.run_at
    else if not (a.created_at == b.created_at)
    then ltb a.created_at b.created_at
    else text_ltb a.id b.id

-- What the loop reads of the pool.
pub record Claiming : Type 0 where
  pub schedule : List String
  pub policies : Assoc QueuePolicy
  pub worker_id : String
  pub lease : ℤ

-- The variables of the loop, with the rows that are started.
pub record Claims : Type 0 where
  pub cursor : ℕ
  pub states : States
  pub free : ℕ
  pub misses : ℕ
  pub started : List JobRow
  pub panicked : Bool

unfoldable pub slot_at : ℕ → List String → String
slot_at i [] = ""
slot_at zero (q ∷ qs) = q
slot_at (suc i) (q ∷ qs) = slot_at i qs

abbrev pub fetch_of : Claiming → String → FetchParams
fetch_of pool queue = record {
  queue = queue;
  limit = pos 1;
  worker_id = pool.worker_id;
  lease_duration = pool.lease;
}

-- The cursor, a uint64, is converted to an `int`: from 2^63 on it is negative, and so is its remainder,
-- where that is not 0.
unfoldable pub index_panics : Claiming → ℕ → Bool
index_panics pool cursor =
    leb (2 ^ 63) cursor && not ((2 ^ 64 - cursor) % length pool.schedule == 0)

-- The queue of a cursor whose index does not panic.
unfoldable pub queue_at : Claiming → ℕ → String
unfolding slot_at
queue_at pool cursor =
    slot_at (if leb (2 ^ 63) cursor then 0 else cursor % length pool.schedule) pool.schedule

-- What a fetch of the queue found, with the cursor moved on.
unfoldable pub settle_fetch : String → Claims → List JobRow → Claims
unfolding queue_claimed row_before
settle_fetch queue c [] = record c { misses = suc c.misses }
settle_fetch queue c (row ∷ rows) = record c {
  states = queue_claimed queue c.states;
  free = c.free - 1;
  misses = 0;
  started = c.started ++ sort row_before (row ∷ rows);
}

unfoldable pub is_claiming : Claiming → Claims → Bool
is_claiming pool c = not c.panicked && ltb 0 c.free && ltb c.misses (length pool.schedule)

module _ {S : Type 0} (exec : Executor S) (pool : Claiming) where
  -- One round of the loop, from its index on.
  unfoldable pub claim_round : Claims → S → Claims × S
  unfolding settle_fetch queue_can_claim queue_at
  claim_round c s =
      let queue = queue_at pool c.cursor in
      let (states, can) = queue_can_claim pool.policies queue c.states in
      let moved = record c { cursor = (c.cursor + 1) % 2 ^ 64; states = states } in
      let (s', fetched) = exec.job_fetch_batch s (fetch_of pool queue) in
      if can
      then elim fetched [
        | err _ ↦ (record moved { misses = suc c.misses }, s')
        | ok rows ↦ (settle_fetch queue moved rows, s')
      ]
      else (record moved { misses = suc c.misses }, s)

  -- A panic ends the loop.
  unfoldable pub claim_step : Claims → S → Claims × S
  unfolding claim_round index_panics
  claim_step c s =
      if index_panics pool c.cursor
      then (record c { cursor = (c.cursor + 1) % 2 ^ 64; panicked = true }, s)
      else claim_round c s

  -- The loop, on fuel.
  unfoldable pub claim_loop : ℕ → Claims → S → Claims × S
  unfolding claim_step is_claiming
  claim_loop zero c s = (c, s)
  claim_loop (suc fuel) c s =
      let (c', s') = claim_step c s in
      let rest = claim_loop fuel c' s' in if is_claiming pool c then rest else (c, s)

-- A pool that shuts down, or is full, claims nothing. `pending` counts the claimed jobs that have not
-- ended. The fuel is enough for the loop to end by itself.
unfoldable pub fetch_and_dispatch :
    {S : Type 0} → Executor S → Claiming → Bool → ℕ → ℕ → ℕ → States → S → Claims × S
unfolding claim_loop
fetch_and_dispatch exec pool shutting_down max_pending pending cursor states s =
    let free = max_pending - pending in
    let c : Claims = record {
      cursor = cursor;
      states = states;
      free = free;
      misses = 0;
      started = [];
      panicked = false;
    } in
    if shutting_down || (free == 0)
    then (c, s)
    else claim_loop exec pool ((free + 1) * length pool.schedule) c s
