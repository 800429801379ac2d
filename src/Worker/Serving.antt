-- ===== src/Worker/Serving.antt =====
-- Over the memory driver, the pool leaves no queue of its schedule with a job that it could start: the
-- round robin looks at every slot before it stops with room left.
use goncordia.Prelude.{
  ℕ, zero, suc, ◌+◌, ◌-◌, ◌*◌, ◌%◌, ◌^◌, ◌≤◌, ◌<◌, ◌≡◌, refl, sym, subst, ◌∙◌, inl, inr, ◌⊎◌, false,
  leb, ◌==◌, String, List, [], ◌∷◌, length, Bool-cases, arith,
}
use native.Mathlib.Nat.{mod-eq_of_lt, add-mod_right}
use goncordia.Driver.{JobRow}
use goncordia.Memory.State.{Driver}
use goncordia.Memory.Interfaces.{executor}
use goncordia.Worker.Dispatch.{
  States, queue_can_claim, Claiming, Claims, slot_at, index_panics, queue_at, settle_fetch,
  claim_round, claim_step, is_claiming, claim_loop, fetch_and_dispatch,
}
use goncordia.Worker.Claiming.{claim_loop-ends}
use goncordia.Worker.Idle.{IsIdle, ensure-IsIdle, round-cases}

-- The last numbers before a cursor, as many as there are slots, meet every slot.
meets :
    (slots extra j : ℕ)
    → j < slots
    → (i : ℕ) × (i < slots + extra) × (slots + extra ≤ i + slots) × (i % slots ≡ j)
meets slots zero j below = (j, omega arith, omega arith, mod-eq_of_lt below)
meets slots (suc extra) j below =
    let (i, before, recent, hit) = meets slots extra j below in
    elim (Bool-cases (i + slots == slots + extra)) [
      | inr recent_still ↦ (i, omega arith, ground arith, hit)
      | inl oldest ↦ (i + slots, ground arith, ground arith, add-mod_right i slots ∙ hit)
    ]

module _ (pool : Claiming) where
  -- The slots of the last misses are idle.
  abbrev IsMissed : Claims → Driver → Type 0
  IsMissed c d =
      (i : ℕ) → i < c.cursor → c.cursor ≤ i + c.misses → IsIdle pool c.states d (queue_at pool i)

  abbrev IsNext : ℕ → Claims × Driver → Type 0
  IsNext cursor (c, d) = (c.cursor ≡ suc cursor) × (c.misses ≤ suc cursor) × IsMissed c d

  missed-one :
      (c : Claims) (d : Driver)
      → IsIdle pool c.states d (queue_at pool c.cursor)
      → IsMissed c d
      → (i : ℕ) → i < suc c.cursor
      → suc c.cursor ≤ i + suc c.misses
      → IsIdle pool c.states d (queue_at pool i)
  missed-one c d idle missed i before recent = elim (Bool-cases (i == c.cursor)) [
    | inl now ↦
        let here : c.cursor ≡ i = ground arith in
        subst (λ n. IsIdle pool c.states d (queue_at pool n)) here idle
    | inr earlier ↦ missed i (ground arith) (omega arith)
  ]

  round-IsMissed :
      (c : Claims) (d : Driver)
      → suc c.cursor < 2 ^ 64
      → c.misses ≤ c.cursor
      → IsMissed c d
      → IsNext c.cursor (claim_round executor pool c d)
  round-IsMissed c d small bound missed = elim (round-cases pool c d small) [
    | inr (none_missed, moved) ↦ (moved, omega arith, λ i before recent. absurd (omega arith))
    | inl (same, idle) ↦ subst (IsNext c.cursor) (sym same) (
      refl,
      omega arith,
      λ i before recent.
          ensure-IsIdle pool (queue_at pool c.cursor) (queue_at pool i) c.states d
            (missed-one c d idle missed i before recent),
    )
  ]

  settle-panicked :
      (queue : String) (c : Claims) (rows : List JobRow)
      → (settle_fetch queue c rows).panicked ≡ c.panicked
  unfolding settle_fetch
  settle-panicked queue c [] = refl
  settle-panicked queue c (row ∷ rows) = refl

  -- A round does not panic.
  round-panicked :
      (c : Claims) (d : Driver) → (claim_round executor pool c d).0.panicked ≡ c.panicked
  unfolding claim_round
  round-panicked c d =
      elim (Bool-cases (queue_can_claim pool.policies (queue_at pool c.cursor) c.states).1) [
        | inr full ↦ rw (full, claim_round) refl
        | inl room ↦ rw (room, claim_round) (settle-panicked _ _ _)
      ]

  below-index : (cursor : ℕ) → cursor < 2 ^ 63 → index_panics pool cursor ≡ false
  unfolding index_panics
  below-index cursor small =
      let positive : leb (2 ^ 63) cursor ≡ false = ground arith in rw positive refl

  -- What the loop keeps below 2^63.
  abbrev IsKept : Claims × Driver → Type 0
  IsKept (c, d) = (c.panicked ≡ false) × (c.cursor < 2 ^ 63) × (c.misses ≤ c.cursor) × IsMissed c d

  loop-IsMissed :
      (fuel : ℕ) (c : Claims) (d : Driver)
      → c.cursor + fuel < 2 ^ 63
      → c.panicked ≡ false
      → c.misses ≤ c.cursor
      → IsMissed c d
      → IsKept (claim_loop executor pool fuel c d)
  unfolding claim_loop claim_step
  loop-IsMissed zero c d small runs bound missed = (runs, omega arith, bound, missed)
  loop-IsMissed (suc fuel) c d small runs bound missed = elim (Bool-cases (is_claiming pool c)) [
    | inr over ↦ rw (over, claim_loop) (runs, omega arith, bound, missed)
    | inl going ↦
        let (c', d') = claim_round executor pool c d in
        let fine : index_panics pool c.cursor ≡ false = below-index c.cursor (omega arith) in
        let (moved, bound', missed') = round-IsMissed c d (omega arith) bound missed in
        rw (going, claim_loop, fine)
          (loop-IsMissed fuel c' d' (omega arith) (round-panicked c d ∙ runs) (omega arith) missed')
  ]

  -- A slot of the schedule among the last misses.
  covered :
      (c : Claims) (d : Driver)
      → c.cursor < 2 ^ 63
      → c.misses ≤ c.cursor
      → length pool.schedule ≤ c.misses
      → IsMissed c d
      → (j : ℕ) → j < length pool.schedule
      → IsIdle pool c.states d (slot_at j pool.schedule)
  unfolding queue_at
  covered c d small bound whole missed j below =
      let slots = length pool.schedule in
      let sum : slots + (c.cursor - slots) ≡ c.cursor = omega arith in
      let (i, before, recent, hit) = meets slots (c.cursor - slots) j below in
      let positive : leb (2 ^ 63) i ≡ false = ground arith in
      let slot : queue_at pool i ≡ slot_at j pool.schedule = rw (positive, queue_at, hit) refl in
      subst (IsIdle pool c.states d) slot (missed i (omega arith) (omega arith))

  -- Where the pool is not shutting down, and the cursor stays below 2^63, a pass over
  -- the memory driver ends with the room used up, or with every queue of the schedule idle in the
  -- state that it leaves: the queue's limit is reached, or a fetch from it finds no job.
  pub fetch_and_dispatch-serves :
      (max_pending pending cursor : ℕ) (states : States) (d : Driver)
      → cursor + (max_pending - pending + 1) * length pool.schedule < 2 ^ 63
      → ((fetch_and_dispatch executor pool false max_pending pending cursor states d).0.free ≡ 0)
        ⊎ ((j : ℕ)
            → j < length pool.schedule
            → IsIdle pool
                (fetch_and_dispatch executor pool false max_pending pending cursor states
                  d).0.states
                (fetch_and_dispatch executor pool false max_pending pending cursor states d).1
                (slot_at j pool.schedule))
  unfolding fetch_and_dispatch is_claiming
  fetch_and_dispatch-serves max_pending pending cursor states d small =
      let free = max_pending - pending in
      let start : Claims = record {
        cursor = cursor;
        states = states;
        free = free;
        misses = 0;
        started = [];
        panicked = false;
      } in
      let fuel = (free + 1) * length pool.schedule in
      elim (Bool-cases (free == 0)) [
        | inl full ↦ rw (full, fetch_and_dispatch) (inl (ground arith))
        | inr room ↦
            let ended : is_claiming pool (claim_loop executor pool fuel start d).0 ≡ false =
              claim_loop-ends executor pool start d refl in
            let (runs, below, bound, missed) =
              loop-IsMissed fuel start d (omega (arith, small)) refl (omega arith)
                (λ i before recent. absurd (omega arith)) in
            rw (room, fetch_and_dispatch)
              (elim (Bool-cases ((claim_loop executor pool fuel start d).0.free == 0)) [
                | inl used ↦ inl (ground arith)
                | inr left ↦ inr (
                    covered (claim_loop executor pool fuel start d).0
                      (claim_loop executor pool fuel start d).1 below bound
                      (ground (arith, ended, left, runs)) missed)
              ])
      ]
