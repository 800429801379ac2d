-- ===== src/Memory/Leases/Exclusion.antt =====
-- Leader leases exclude, and a schedule cursor's compare-and-swap has one winner.
use goncordia.Prelude.{
  ◌≤◌, ◌<◌, ◌≡◌, ◌≢◌, refl, ap, ◌∙◌, String, ◌=s=◌, eq_iff, Bool, true, false, not, ◌==◌, ◌&&◌,
  Bool-cases, Option-cases, some, inl, inr, ◌⊎◌, arith, List, [], ◌∷◌, All,
}
use goncordia.Prelude.Assoc.{lookup, insert, lookup-insert, lookup-erase}
use goncordia.Time.{Time, add}
use goncordia.Driver.{LeaderElectParams, LeaderResignParams, ScheduleCursorAdvanceParams}
use goncordia.Memory.State.{Driver, MemoryLeader}
use goncordia.Memory.Leases.{
  blocks, lead, leader_attempt_elect, leader_resign, schedule_cursor_advance,
}
use goncordia.Memory.Run.{Call, elect, resign, step, run}
use goncordia.Memory.Untouched.{leaders-step}

-- The lease of `name` is `worker`'s at least until `until`.
abbrev pub Leads : Driver → String → String → Time → Type 0
Leads d name worker until =
    (l : MemoryLeader) × (lookup name d.leaders ≡ some l)
    × (l.worker_id ≡ worker)
    × (until ≤ l.expires_at)

-- The worker itself makes no call on the lease.
abbrev pub silent : String → String → Call → Bool
silent name worker (elect p) = not ((p.name =s= name) && (p.worker_id =s= worker))
silent name worker (resign p) = not ((p.name =s= name) && (p.worker_id =s= worker))
silent name worker _ = true

-- The clock is before `until` at every call.
abbrev pub Before : Time → Driver → List Call → Type 0
Before until d [] = d.now < until
Before until d (c ∷ cs) = (d.now < until) × Before until (step d c) cs

leader_attempt_elect-cases :
    (d : Driver) (p : LeaderElectParams)
    → (leader_attempt_elect d p ≡ (d, false)) ⊎ (leader_attempt_elect d p ≡ (lead d p, true))
unfolding leader_attempt_elect
leader_attempt_elect-cases d p = elim (Option-cases (lookup p.name d.leaders)) [
  | inl e ↦ inr (rw (e, leader_attempt_elect))
  | inr (l, e) ↦ elim (Bool-cases (blocks d p l)) [
    | inl b ↦ inl (rw (e, leader_attempt_elect, b))
    | inr b ↦ inr (rw (e, leader_attempt_elect, b))
  ]
]

-- A live lease refuses every other worker.
blocked :
    (d : Driver) (name worker : String) (until : Time) (p : LeaderElectParams)
    → Leads d name worker until
    → d.now < until
    → p.name ≡ name
    → (p.worker_id =s= worker) ≡ false
    → leader_attempt_elect d p ≡ (d, false)
unfolding leader_attempt_elect blocks
blocked d name worker until p (l, known, mine, long) soon same other = ground (
  arith,
  ap (λ n. lookup n d.leaders) same,
  eq_iff l.worker_id p.worker_id,
  eq_iff p.worker_id worker,
)

lead-Leads :
    (d : Driver) (p : LeaderElectParams) → Leads (lead d p) p.name p.worker_id (add d.now p.ttl)
unfolding lead
lead-Leads d p = (
  record { worker_id = p.worker_id; expires_at = add d.now p.ttl },
  lookup-insert p.name p.name _ d.leaders ∙ ground (arith, eq_iff p.name p.name),
  refl,
  omega arith,
)

other_name :
    (d : Driver) (p : LeaderElectParams) (name worker : String) (until : Time)
    → (p.name =s= name) ≡ false
    → Leads d name worker until
    → Leads (lead d p) name worker until
unfolding lead
other_name d p name worker until ne (l, known, mine, long) =
    (l, lookup-insert p.name name _ d.leaders ∙ rw ne known, mine, long)

elect-Leads :
    (d : Driver) (p : LeaderElectParams) (name worker : String) (until : Time)
    → silent name worker (elect p) ≡ true
    → d.now < until
    → Leads d name worker until
    → Leads (leader_attempt_elect d p).0 name worker until
elect-Leads d p name worker until s soon leads = elim (Bool-cases (p.name =s= name)) [
  | inl same ↦
      rw (blocked d name worker until p leads soon ((eq_iff p.name name).0 same) (ground arith))
        leads
  | inr ne ↦ elim (leader_attempt_elect-cases d p) [
    | inl e ↦ rw e leads
    | inr e ↦ rw e (other_name d p name worker until ne leads)
  ]
]

resign-Leads :
    (d : Driver) (p : LeaderResignParams) (name worker : String) (until : Time)
    → silent name worker (resign p) ≡ true
    → Leads d name worker until
    → Leads (leader_resign d p) name worker until
unfolding leader_resign
resign-Leads d p name worker until s (l, known, mine, long) =
    elim (Option-cases (lookup p.name d.leaders)) [
      | inl e ↦ rw (e, leader_resign) (l, known, mine, long)
      | inr (l', e) ↦ elim (Bool-cases (l'.worker_id =s= p.worker_id)) [
        | inr b ↦ rw (e, leader_resign, b) (l, known, mine, long)
        | inl b ↦
            rw (e, leader_resign, b)
              (
                l,
                lookup-erase p.name name d.leaders
                    ∙ ground (
                      arith,
                      known,
                      e,
                      mine,
                      s,
                      b,
                      eq_iff p.name name,
                      eq_iff l'.worker_id p.worker_id,
                      eq_iff p.worker_id worker,
                    ),
                mine,
                long,
              )
      ]
    ]

step-Leads :
    (d : Driver) (c : Call) (name worker : String) (until : Time)
    → silent name worker c ≡ true
    → d.now < until
    → Leads d name worker until
    → Leads (step d c) name worker until
unfolding step
step-Leads d (elect p) name worker until s soon leads =
    elect-Leads d p name worker until s soon leads
step-Leads d (resign p) name worker until s soon leads = resign-Leads d p name worker until s leads
step-Leads d c name worker until s soon (l, known, mine, long) =
    (l, ap (lookup name) (leaders-step d c refl) ∙ known, mine, long)

run-Leads :
    (d : Driver) (cs : List Call) (name worker : String) (until : Time)
    → All (λ c. silent name worker c ≡ true) cs
    → Before until d cs
    → Leads d name worker until
    → Leads (run d cs) name worker until
unfolding run
run-Leads d [] name worker until s b leads = leads
run-Leads d (c ∷ cs) name worker until s b leads =
    run-Leads (step d c) cs name worker until s.1 b.1
      (step-Leads d c name worker until s.0 b.0 leads)

run-now : (d : Driver) (cs : List Call) (until : Time) → Before until d cs → (run d cs).now < until
unfolding run
run-now d [] until b = b
run-now d (c ∷ cs) until b = run-now (step d c) cs until b.1

-- Once a worker has been elected, no other worker is elected before its lease is over: after any
-- calls among which the worker neither resigns nor runs for the lease again, while the clock is
-- before the end of the lease, another worker's attempt is refused and changes nothing.
pub leader_exclusive :
    (d : Driver) (p p' : LeaderElectParams) (cs : List Call)
    → (leader_attempt_elect d p).1 ≡ true
    → All (λ c. silent p.name p.worker_id c ≡ true) cs
    → Before (add d.now p.ttl) (leader_attempt_elect d p).0 cs
    → p'.name ≡ p.name
    → (p'.worker_id =s= p.worker_id) ≡ false
    → let d' = run (leader_attempt_elect d p).0 cs in leader_attempt_elect d' p' ≡ (d', false)
leader_exclusive d p p' cs won s b same other =
    let d' = run (leader_attempt_elect d p).0 cs in
    blocked d' p.name p.worker_id (add d.now p.ttl) p'
      (run-Leads (leader_attempt_elect d p).0 cs p.name p.worker_id (add d.now p.ttl) s b
        (elim (leader_attempt_elect-cases d p) [
          | inl e ↦ cc (e, won)
          | inr e ↦ rw e (lead-Leads d p)
        ]))
      (run-now (leader_attempt_elect d p).0 cs (add d.now p.ttl) b) same other

-- A successful advance found the expected time and wrote the next one.
advance-won :
    (d : Driver) (p : ScheduleCursorAdvanceParams)
    → (schedule_cursor_advance d p).1 ≡ true
    → (lookup p.id d.cursors ≡ some p.expected)
      × ((schedule_cursor_advance d p).0.cursors ≡ insert p.id p.next d.cursors)
unfolding schedule_cursor_advance
advance-won d p won = elim (Option-cases (lookup p.id d.cursors)) [
  | inl e ↦ ground (arith, e, won)
  | inr (at, e) ↦ elim (Bool-cases (at == p.expected)) [
    | inl b ↦ (e ∙ ap some (ground (arith, b)), rw (e, schedule_cursor_advance, b) refl)
    | inr b ↦ ground (arith, e, b, won)
  ]
]

-- A cursor at another time refuses the advance.
advance-refused :
    (d : Driver) (p : ScheduleCursorAdvanceParams) (at : Time)
    → lookup p.id d.cursors ≡ some at
    → at ≢ p.expected
    → schedule_cursor_advance d p ≡ (d, false)
unfolding schedule_cursor_advance
advance-refused d p at e ne = elim (Bool-cases (at == p.expected)) [
  | inl b ↦ absurd (ne (ground (arith, b)))
  | inr b ↦ rw (e, schedule_cursor_advance, b)
]

-- Of two workers that advance a cursor from the same time, one wins: where the first moves it to
-- another time, the second is refused and changes nothing.
pub cursor_one_winner :
    (d : Driver) (p p' : ScheduleCursorAdvanceParams)
    → (schedule_cursor_advance d p).1 ≡ true
    → p'.id ≡ p.id
    → p'.expected ≡ p.expected
    → p.next ≢ p.expected
    → let d' = (schedule_cursor_advance d p).0 in schedule_cursor_advance d' p' ≡ (d', false)
cursor_one_winner d p p' won same expected moved =
    let d' = (schedule_cursor_advance d p).0 in
    advance-refused d' p' p.next
      (ap (lookup p'.id) (advance-won d p won).1
        ∙ lookup-insert p.id p'.id p.next d.cursors
        ∙ ground (arith, same, eq_iff p.id p'.id))
      (λ e. moved (e ∙ expected))
