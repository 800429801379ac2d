-- ===== src/Memory/Insert.antt =====
-- `JobInsertMany`, one job at a time: what an insert adds, and that its ID is new.
use text.Mathlib.TextLemmas.{append_cancel_left}
use goncordia.Prelude.{
  ℕ, suc, ◌+◌, ◌^◌, ◌<◌, ◌≡◌, ◌≢◌, refl, sym, ap, ◌∙◌, String, ◌=s=◌, eq_iff, true, Bool-cases,
  Option-cases, none, some, ◌⊎◌, inl, inr, arith, if◌then◌else◌, [], ◌∷◌,
}
use goncordia.Prelude.Assoc.{lookup, insert, lookup-insert}
use goncordia.Time.{Time}
use goncordia.Prelude.Decimal.{format_uint-injective}
use goncordia.Driver.{JobRow, JobInsertParams, running}
use goncordia.Memory.State.{Driver, find_unique_job}
use goncordia.Memory.Jobs.{next_seq, job_id, new_row, insert_new, job_insert, job_insert_many}
use goncordia.Memory.Frames.{
  jobs-ensure_queue, jobs-broadcast_notify, seq-ensure_queue, seq-broadcast_notify,
}

pub job_id-injective : (m n : ℕ) → job_id m ≡ job_id n → m ≡ n
unfolding job_id
job_id-injective m n e = format_uint-injective m n (append_cancel_left "mem_" _ _ e)

pub next_seq_lem : (seq : ℕ) → seq + 1 < 2 ^ 64 → next_seq seq ≡ suc seq
unfolding next_seq
next_seq_lem seq h = omega arith

-- What an insert does to the rows and to the sequence number: nothing, if another job holds the
-- key, or a new row under the next ID.
pub record Inserted (d d' : Driver) (p : JobInsertParams) : Type 0 where
  pub seq : d'.seq ≡ next_seq d.seq
  pub jobs :
      d'.jobs ≡ insert (job_id (next_seq d.seq)) (new_row d.now (job_id (next_seq d.seq)) p) d.jobs

insert_new-Inserted : (d : Driver) (p : JobInsertParams) → Inserted d (insert_new d p).0 p
unfolding insert_new
insert_new-Inserted d p = record {
  seq = seq-broadcast_notify _ p.queue ∙ seq-ensure_queue _ p.queue d.now;
  jobs = jobs-broadcast_notify _ p.queue ∙ jobs-ensure_queue _ p.queue d.now;
}

pub job_insert-cases :
    (d : Driver) (p : JobInsertParams)
    → (((job_insert d p).0 ≡ d) × ((job_insert d p).1.unique_skip ≡ true))
      ⊎ (Inserted d (job_insert d p).0 p
          × ((p.unique_key ≡ "") ⊎ (find_unique_job d p.unique_key ≡ none)))
unfolding job_insert
job_insert-cases d p = elim (Bool-cases (p.unique_key =s= "")) [
  | inl e ↦ inr (rw (job_insert, e) (insert_new-Inserted d p), inl ((eq_iff p.unique_key "").0 e))
  | inr e ↦ elim (Option-cases (find_unique_job d p.unique_key)) [
    | inl free ↦ inr (rw (job_insert, e, free) (insert_new-Inserted d p), inr free)
    | inr (dup, taken) ↦ inl (rw (job_insert, e, taken) (refl, refl))
  ]
]

pub job_insert_many_one :
    (d : Driver) (p : JobInsertParams) → (job_insert_many d (p ∷ [])).0 ≡ (job_insert d p).0
unfolding job_insert_many
job_insert_many_one d p = refl

-- A row that is there after an insert is the new one, or was there before.
pub Inserted-back :
    (d d' : Driver) (p : JobInsertParams) (k : String) (b : JobRow)
    → Inserted d d' p
    → lookup k d'.jobs ≡ some b
    → ((job_id (next_seq d.seq) ≡ k) × (b ≡ new_row d.now (job_id (next_seq d.seq)) p))
      ⊎ (lookup k d.jobs ≡ some b)
Inserted-back d d' p k b ins e =
    let id = job_id (next_seq d.seq) in
    let row = new_row d.now id p in
    let found : (if id =s= k then some row else lookup k d.jobs) ≡ some b =
      sym (lookup-insert id k row d.jobs) ∙ sym (ap (lookup k) ins.jobs) ∙ e in
    elim (Bool-cases (id =s= k)) [
      | inl here ↦ inl ((eq_iff id k).0 here, cc (rw here at found))
      | inr other ↦ inr (rw other at found)
    ]

pub new_row_not_running :
    (now : Time) (id : String) (p : JobInsertParams) → (new_row now id p).state ≢ running
unfolding new_row
new_row_not_running now id p = ground arith
