-- ===== src/Memory/Terminal.antt =====
-- Jobs that have ended.
use goncordia.Prelude.{
  ◌≡◌, refl, sym, ap, ◌∙◌, String, ◌<◌, ◌≤◌, ◌+◌, ◌^◌, ℕ, Bool, true, false, some, inl, inr, arith,
  List, [], ◌∷◌, length, All,
}
use goncordia.Prelude.Assoc.{lookup}
use goncordia.Driver.{JobRow, JobInsertParams, JobState, is_terminal}
use goncordia.Memory.State.{Driver}
use goncordia.Memory.Lifecycle.{
  ◌⟶◌, stay, fall_due, start, start_due, leave, cancel_available, cancel_scheduled, RowStep,
}
use goncordia.Memory.Rows.{Rows-back}
use goncordia.Memory.Run.{Call, insert as insert_call, reschedule, step, run}
use goncordia.Memory.Insert.{
  Inserted, Inserted-back, job_insert-cases, job_insert_many_one, job_id-injective, next_seq_lem,
}
use goncordia.Memory.Jobs.{job_id, next_seq}
use goncordia.Memory.Invariant.{Inv, step-Inv, seq-step-le}
use goncordia.Memory.Distinct.{seq-step}
use goncordia.Memory.Steps.{step-Steps}

pub terminal_stays : {s t : JobState} → s ⟶ t → is_terminal s ≡ true → s ≡ t
unfolding is_terminal
terminal_stays stay h = refl
terminal_stays fall_due h = cc
terminal_stays start h = cc
terminal_stays start_due h = cc
terminal_stays leave h = cc
terminal_stays cancel_available h = cc
terminal_stays cancel_scheduled h = cc

-- A call that reschedules a job.
abbrev pub is_reschedule : Call → Bool
is_reschedule (reschedule _) = true
is_reschedule _ = false

-- The ID number `n` has been used, and where its row still is, it is in state `s`.
abbrev Ended : Driver → ℕ → JobState → Type 0
Ended d n s = (n ≤ d.seq) × ((row : JobRow) → lookup (job_id n) d.jobs ≡ some row → row.state ≡ s)

insert-Ended :
    (d d' : Driver) (p : JobInsertParams) (n : ℕ) (s : JobState)
    → d.seq + 1 < 2 ^ 64
    → Inserted d d' p
    → Ended d n s
    → Ended d' n s
insert-Ended d d' p n s room ins (used, ended) = (
  omega (arith, ins.seq, next_seq_lem d.seq room),
  λ row e. elim (Inserted-back d d' p (job_id n) row ins e) [
    | inl (same, new) ↦
        absurd
          (omega (arith, used, next_seq_lem d.seq room, job_id-injective (next_seq d.seq) n same))
    | inr old ↦ ended row old
  ],
)

step-Ended :
    (d : Driver) (c : Call) (n : ℕ) (s : JobState)
    → d.seq + 1 < 2 ^ 64
    → Inv d
    → is_reschedule c ≡ false
    → is_terminal s ≡ true
    → Ended d n s
    → Ended (step d c) n s
unfolding step
step-Ended d (insert_call p) n s room v r over ended = elim (job_insert-cases d p) [
  | inl (same, skip) ↦ rw (job_insert_many_one, same) ended
  | inr (ins, free) ↦ rw job_insert_many_one (insert-Ended d _ p n s room ins ended)
]
step-Ended d (reschedule p) n s room v r over ended = cc
step-Ended d c n s room v r over (used, ended) = (
  omega (arith, used, seq-step d c refl),
  λ row e.
      let (a, known, moved) =
        Rows-back RowStep d.jobs (step d c).jobs (job_id n) row (step-Steps d c v.distinct refl)
          e in
      sym (terminal_stays moved.move (ap is_terminal (ended a known) ∙ over)) ∙ ended a known,
)

run-Ended :
    (d : Driver) (cs : List Call) (n : ℕ) (s : JobState)
    → d.seq + length cs < 2 ^ 64
    → Inv d
    → All (λ c. is_reschedule c ≡ false) cs
    → is_terminal s ≡ true
    → Ended d n s
    → Ended (run d cs) n s
unfolding run
run-Ended d [] n s room v r over ended = ended
run-Ended d (c ∷ cs) n s room v r over ended =
    run-Ended (step d c) cs n s (omega (arith, seq-step-le d c)) (step-Inv d c (omega arith) v) r.1
      over (step-Ended d c n s (omega arith) v r.0 over ended)

-- A job that has ended stays ended: after any calls but reschedules, from a driver within the
-- invariant, while the sequence number does not wrap, a row that is found under the job's ID has
-- the state that the job ended in.
pub ended_stays :
    (d : Driver) (cs : List Call) (id : String) (a b : JobRow)
    → d.seq + length cs < 2 ^ 64
    → Inv d
    → All (λ c. is_reschedule c ≡ false) cs
    → lookup id d.jobs ≡ some a
    → is_terminal a.state ≡ true
    → lookup id (run d cs).jobs ≡ some b
    → b.state ≡ a.state
ended_stays d cs id a b room v r known over found =
    let (n, used, at) = v.numbered id a known in
    let ended : Ended d n a.state = (
      used,
      λ row e.
          ap (λ r. r.state) (some_inj row a (sym e ∙ ap (λ i. lookup i d.jobs) (sym at) ∙ known)),
    ) in
    (run-Ended d cs n a.state room v r over ended).1 b
      (ap (λ i. lookup i (run d cs).jobs) (sym at) ∙ found)
  where
    some_inj : (x y : JobRow) → some x ≡ some y → x ≡ y
    some_inj x y e = cc
