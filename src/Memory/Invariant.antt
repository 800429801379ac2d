-- ===== src/Memory/Invariant.antt =====
-- What holds of the jobs between two calls: an ID is the row's key, is used once, and is numbered
-- by the sequence, and a running job has counted its attempt.
use goncordia.Prelude.{
  ℕ, ◌+◌, ◌^◌, ◌≤◌, ◌<◌, ◌≡◌, refl, sym, ap, subst, ◌∙◌, String, false, some, inl, inr, arith, List,
  [], ◌∷◌, length,
}
use goncordia.Prelude.Assoc.{lookup, Distinct, insert-Distinct}
use goncordia.Time.{Time}
use goncordia.Driver.{JobRow, RescheduleParams, JobInsertParams, running, not_found, ok}
use goncordia.Memory.State.{Driver, new}
use goncordia.Memory.Jobs.{job_id, next_seq, new_row}
use goncordia.Memory.Edits.{job_reschedule, reschedule_row}
use goncordia.Memory.Insert.{
  Inserted, job_insert-cases, next_seq_lem, job_insert_many_one, Inserted-back, new_row_not_running,
}
use goncordia.Memory.Lifecycle.{RowStep}
use goncordia.Memory.Rows.{Rows, Rows-back, Rows-imp}
use goncordia.Memory.Run.{Call, insert as insert_call, reschedule, step, run}
use goncordia.Memory.Distinct.{step-Distinct, seq-step, is_insert}
use goncordia.Memory.Steps.{step-Steps, edit_row-Rows}

pub record Kept (a b : JobRow) : Type 0 where
  pub id : a.id ≡ b.id
  pub attempts : (a.state ≡ running → 0 < a.attempt_num) → b.state ≡ running → 0 < b.attempt_num

Kept-RowStep : (a b : JobRow) → RowStep a b → Kept a b
Kept-RowStep a b s = record { id = s.id; attempts = s.attempts }

pub record Inv (d : Driver) : Type 0 where
  pub distinct : Distinct d.jobs
  pub keyed : (k : String) (row : JobRow) → lookup k d.jobs ≡ some row → row.id ≡ k
  pub numbered :
      (k : String) (row : JobRow)
      → lookup k d.jobs ≡ some row
      → (n : ℕ) × (n ≤ d.seq) × (k ≡ job_id n)
  pub counted :
      (k : String) (row : JobRow)
      → lookup k d.jobs ≡ some row
      → row.state ≡ running
      → 0 < row.attempt_num

Kept-reschedule_row : (params : RescheduleParams) (a : JobRow) → Kept a (reschedule_row params a)
Kept-reschedule_row params a = record { id = refl; attempts = λ h e. cc }

step-Kept :
    (d : Driver) (c : Call)
    → Distinct d.jobs
    → is_insert c ≡ false
    → Rows Kept d.jobs (step d c).jobs
unfolding step job_reschedule
step-Kept d (insert_call p) h i = cc
step-Kept d (reschedule p) h i =
    edit_row-Rows Kept (λ row. record { id = refl; attempts = λ a. a }) d p.id not_found
      (λ row. ok (reschedule_row p row))
      (λ row b e. subst (Kept row) (cc e) (Kept-reschedule_row p row))
step-Kept d c h i =
    Rows-imp RowStep Kept d.jobs (step d c).jobs Kept-RowStep (step-Steps d c h refl)

-- A call that is no insert keeps the invariant.
edit-Inv : (d : Driver) (c : Call) → is_insert c ≡ false → Inv d → Inv (step d c)
edit-Inv d c i v =
    let rows = step-Kept d c v.distinct i in
    record {
      distinct = step-Distinct d c i v.distinct;
      keyed = λ k b e.
          let (a, was, kept) = Rows-back Kept d.jobs (step d c).jobs k b rows e in
          sym kept.id ∙ v.keyed k a was;
      numbered = λ k b e.
          let (a, was, kept) = Rows-back Kept d.jobs (step d c).jobs k b rows e in
          rw (seq-step d c i) (v.numbered k a was);
      counted = λ k b e.
          let (a, was, kept) = Rows-back Kept d.jobs (step d c).jobs k b rows e in
          kept.attempts (v.counted k a was);
    }

-- An insert keeps the invariant while the sequence number does not wrap.
insert-Inv :
    (d d' : Driver) (p : JobInsertParams) → d.seq + 1 < 2 ^ 64 → Inserted d d' p → Inv d → Inv d'
insert-Inv d d' p room ins v = record {
  distinct = rw ins.jobs (insert-Distinct _ _ d.jobs v.distinct);
  keyed = λ k b e. elim (Inserted-back d d' p k b ins e) [
    | inl (here, new) ↦ subst (λ (r : JobRow). r.id ≡ k) (sym new) (unfold new_row in here)
    | inr old ↦ v.keyed k b old
  ];
  numbered = λ k b e. elim (Inserted-back d d' p k b ins e) [
    | inl (here, new) ↦ (next_seq d.seq, omega (arith, ins.seq), sym here)
    | inr old ↦
        let (n, below, at) = v.numbered k b old in
        (n, omega (arith, ins.seq, next_seq_lem d.seq room), at)
  ];
  counted = λ k b e. elim (Inserted-back d d' p k b ins e) [
    | inl (here, new) ↦ λ busy.
        absurd (
          new_row_not_running d.now (job_id (next_seq d.seq)) p
            (ap (λ r. r.state) (sym new) ∙ busy))
    | inr old ↦ v.counted k b old
  ];
}

-- Every call keeps the invariant while the sequence number does not wrap.
pub step-Inv : (d : Driver) (c : Call) → d.seq + 1 < 2 ^ 64 → Inv d → Inv (step d c)
unfolding step
step-Inv d (insert_call p) room v = elim (job_insert-cases d p) [
  | inl (same, skip) ↦ rw (job_insert_many_one, same) v
  | inr (ins, free) ↦ rw job_insert_many_one (insert-Inv d _ p room ins v)
]
step-Inv d c room v = edit-Inv d c refl v

pub seq-step-le : (d : Driver) (c : Call) → d.seq + 1 < 2 ^ 64 → (step d c).seq ≤ d.seq + 1
unfolding step
seq-step-le d (insert_call p) room = elim (job_insert-cases d p) [
  | inl (same, skip) ↦ rw (job_insert_many_one, same) (omega arith)
  | inr (ins, free) ↦ rw job_insert_many_one (omega (arith, ins.seq, next_seq_lem d.seq room))
]
seq-step-le d c room = omega (arith, seq-step d c refl)

-- After any calls, from a driver within the invariant, while the sequence number does not wrap: an
-- ID is the key of its row, is used once and is numbered by the sequence, and each running job has
-- counted its attempt.
pub run-Inv : (d : Driver) (cs : List Call) → d.seq + length cs < 2 ^ 64 → Inv d → Inv (run d cs)
unfolding run
run-Inv d [] room v = v
run-Inv d (c ∷ cs) room v =
    run-Inv (step d c) cs (omega (arith, seq-step-le d c)) (step-Inv d c (omega arith) v)

pub new-Inv : (now : Time) → Inv (new now)
unfolding new lookup
new-Inv now = record {
  distinct = tt;
  keyed = λ k row e. cc;
  numbered = λ k row e. absurd (cc);
  counted = λ k row e. absurd (cc);
}
