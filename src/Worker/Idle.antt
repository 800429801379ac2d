-- ===== src/Worker/Idle.antt =====
-- Over the memory driver: the pool claims as long as it has room and some queue has a due job that
-- the queue's limit allows.
use goncordia.Prelude.{
  suc, ◌+◌, ◌%◌, ◌^◌, ◌<◌, ◌≡◌, refl, sym, ap, ◌∙◌, inl, inr, ◌⊎◌, pos, String, ◌=s=◌, true, false,
  ◌&&◌, not, ltb, List, [], ◌∷◌, length, keep, take, map, length-map, length-take-le, Bool-cases,
  arith,
}
use goncordia.Prelude.Assoc.{Assoc, map_values}
use goncordia.Prelude.Sort.{sort, length-sort}
use goncordia.Time.{Time}
use goncordia.Driver.{JobRow, FetchParams, available, scheduled, state_eq, ok}
use goncordia.Memory.State.{Driver}
use goncordia.Memory.Claims.{
  promote, is_candidate, claim, chosen, promoted, claim_all, fetch_open, fetch_limit,
  job_fetch_batch, entry_is_candidate, entry_claims_before,
}
use goncordia.Memory.Interfaces.{executor}
use goncordia.Worker.Defaults.{policy_of}
use goncordia.Worker.Dispatch.{
  States, state_at, ensure_state, at_capacity, queue_can_claim, Claiming, Claims, fetch_of,
  queue_at, settle_fetch, claim_round,
}
use goncordia.Worker.Capacity.{FetchesOne, state_at-ensure}
use goncordia.Memory.Fetch.{job_fetch_batch-cases, job_fetch_batch_open, rows-job_fetch_batch}

-- A due job that `promote` makes available is a candidate.
promote-waits :
    (queue : String) (now : Time) (j : JobRow)
    → is_candidate queue now (promote queue now j) ≡ false
    → promote queue now j ≡ j
unfolding promote is_candidate state_eq
promote-waits queue now j e =
    elim (Bool-cases
      ((j.queue =s= queue) && state_eq j.state scheduled && not (ltb now j.run_at))) [
        | inr waits ↦ rw (waits) refl
        | inl due ↦
            let moved : promote queue now j ≡ record j { state = available } = rw due refl in
            let refused : is_candidate queue now (record j { state = available }) ≡ false =
              ap (is_candidate queue now) (sym moved) ∙ e in
            absurd (ground arith)
      ]

promoted-same :
    (queue : String) (now : Time) (jobs : Assoc JobRow)
    → keep (entry_is_candidate queue now) (map_values (promote queue now) jobs) ≡ []
    → map_values (promote queue now) jobs ≡ jobs
unfolding map_values
promoted-same queue now [] e = refl
promoted-same queue now ((k, j) ∷ jobs) e =
    elim (Bool-cases (is_candidate queue now (promote queue now j))) [
      | inl chosen_one ↦ absurd (ground (arith, chosen_one, e))
      | inr waits ↦
          let rest : keep (entry_is_candidate queue now) (map_values (promote queue now) jobs)
              ≡ [] =
            ground (arith, waits, e) in
          let same : promote queue now j ≡ j = promote-waits queue now j waits in
          let others : map_values (promote queue now) jobs ≡ jobs =
            promoted-same queue now jobs rest in
          ap (λ x. (k, x) ∷ map_values (promote queue now) jobs) same ∙ ap (λ m. (k, j) ∷ m) others
    ]

take_one-none : {A : Type 0} (xs : List A) → take 1 xs ≡ [] → length xs ≡ 0
take_one-none [] e = refl
take_one-none (x ∷ xs) e = cc

length_zero : {A : Type 0} (xs : List A) → length xs ≡ 0 → xs ≡ []
length_zero [] e = refl
length_zero (x ∷ xs) e = absurd (omega arith)

map-none : {A B : Type 0} (f : A → B) (xs : List A) → map f xs ≡ [] → xs ≡ []
map-none f [] e = refl
map-none f (x ∷ xs) e = cc

chosen-none :
    (d : Driver) (params : FetchParams)
    → params.limit ≡ pos 1
    → chosen d params ≡ []
    → keep (entry_is_candidate params.queue d.now) (promoted d params.queue) ≡ []
unfolding chosen fetch_limit
chosen-none d params one e =
    let candidates = keep (entry_is_candidate params.queue d.now) (promoted d params.queue) in
    let limit : fetch_limit params.limit (length candidates) ≡ 1 = rw (one, fetch_limit) refl in
    let first : take 1 (sort entry_claims_before candidates) ≡ [] =
      ap (λ n. take n (sort entry_claims_before candidates)) (sym limit) ∙ e in
    length_zero candidates (
      sym (length-sort entry_claims_before candidates)
      ∙ take_one-none (sort entry_claims_before candidates) first)

untouched :
    (d : Driver) (params : FetchParams)
    → chosen d params ≡ []
    → promoted d params.queue ≡ d.jobs
    → (fetch_open d params).0 ≡ d
unfolding fetch_open claim_all promoted
untouched d params chose same = rw (chose, fetch_open) (ap (λ jobs. record d { jobs = jobs }) same)

-- A fetch of one that finds nothing changes nothing.
pub fetch-none :
    (d : Driver) (params : FetchParams)
    → params.limit ≡ pos 1
    → (job_fetch_batch d params).1 ≡ []
    → (job_fetch_batch d params).0 ≡ d
unfolding promoted
fetch-none d params one e = elim (job_fetch_batch-cases d params) [
  | inl closed ↦ ap (λ x. x.0) closed
  | inr is_open ↦
      let chose : chosen d params ≡ [] =
        map-none (λ entry. claim d.now params entry.1) (chosen d params)
          (sym (rows-job_fetch_batch d params is_open) ∙ e) in
      let same : promoted d params.queue ≡ d.jobs =
        promoted-same params.queue d.now d.jobs (chosen-none d params one chose) in
      ap (λ x. x.0) (job_fetch_batch_open d params is_open) ∙ untouched d params chose same
]

-- The memory driver gives at most one row to a fetch of one.
pub fetch-one : (pool : Claiming) → FetchesOne executor pool
unfolding chosen fetch_limit
fetch-one pool d queue rows e = elim (job_fetch_batch-cases d (fetch_of pool queue)) [
  | inl closed ↦
      let nothing : ok [] ≡ ok rows = ap (λ x. ok x.1) (sym closed) ∙ e in ground (arith, nothing)
  | inr is_open ↦
      let found : ok (
            map (λ entry. claim d.now (fetch_of pool queue) entry.1)
              (chosen d (fetch_of pool queue)))
          ≡ ok rows =
        ap ok (sym (rows-job_fetch_batch d (fetch_of pool queue) is_open)) ∙ e in
      let candidates = keep (entry_is_candidate queue d.now) (promoted d queue) in
      ground (
        arith,
        found,
        length-map (λ entry. claim d.now (fetch_of pool queue) entry.1)
            (chosen d (fetch_of pool queue)),
        length-take-le 1 (sort entry_claims_before candidates),
      )
]

List-cases : {A : Type 0} (xs : List A) → (xs ≡ []) ⊎ ((y : A) × (ys : List A) × (xs ≡ y ∷ ys))
List-cases [] = inl refl
List-cases (x ∷ xs) = inr (x, xs, refl)

module _ (pool : Claiming) where
  -- A queue gives nothing in the state: its limit is reached, or no due job is there.
  abbrev pub IsIdle : States → Driver → String → Type 0
  IsIdle states d queue =
      (at_capacity (policy_of pool.policies queue) (state_at queue states).active ≡ true)
      ⊎ ((job_fetch_batch d (fetch_of pool queue)).1 ≡ [])

  pub ensure-IsIdle :
      (made queue : String) (states : States) (d : Driver)
      → IsIdle states d queue
      → IsIdle (ensure_state made states) d queue
  ensure-IsIdle made queue states d (inl full) = inl (
      ap (λ x. at_capacity (policy_of pool.policies queue) x.active)
        (state_at-ensure made queue states)
      ∙ full)
  ensure-IsIdle made queue states d (inr nothing) = inr nothing

  pub round-cases :
      (c : Claims) (d : Driver)
      → suc c.cursor < 2 ^ 64
      → ((claim_round executor pool c d ≡ (
        record c {
          cursor = suc c.cursor;
          states = ensure_state (queue_at pool c.cursor) c.states;
          misses = suc c.misses;
        },
        d,
      ))
          × IsIdle c.states d (queue_at pool c.cursor))
        ⊎ (((claim_round executor pool c d).0.misses ≡ 0)
            × ((claim_round executor pool c d).0.cursor ≡ suc c.cursor))
  unfolding claim_round settle_fetch queue_can_claim
  round-cases c d small =
      let queue = queue_at pool c.cursor in
      let next : (c.cursor + 1) % 2 ^ 64 ≡ suc c.cursor = omega arith in
      elim (Bool-cases
        (at_capacity (policy_of pool.policies queue) (state_at queue c.states).active)) [
          | inl full ↦ inl (rw (full, claim_round, queue_can_claim, next) refl, inl full)
          | inr room ↦ elim (List-cases (job_fetch_batch d (fetch_of pool queue)).1) [
            | inl nothing ↦
                let same : (job_fetch_batch d (fetch_of pool queue)).0 ≡ d =
                  fetch-none d (fetch_of pool queue) refl nothing in
                inl (
                  rw (room, claim_round, queue_can_claim, next, nothing)
                      (ap
                        (λ x. (
                          record c {
                            cursor = suc c.cursor;
                            states = ensure_state queue c.states;
                            misses = suc c.misses;
                          },
                          x,
                        ))
                        same),
                  inr nothing,
                )
            | inr (row, rows, found) ↦ inr (
              rw (room, claim_round, queue_can_claim, found) refl,
              rw (room, claim_round, queue_can_claim, next, found) refl,
            )
          ]
        ]
