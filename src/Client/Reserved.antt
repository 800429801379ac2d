-- ===== src/Client/Reserved.antt =====
-- client.go and the memory driver: which unique keys an ended job still holds.
use goncordia.Prelude.{
  ◌≡◌, ◌≢◌, sym, ap, ◌∙◌, inl, inr, ◌⊎◌, Bool-cases, String, eq_iff, true, false, some, arith,
}
use goncordia.Prelude.Assoc.{lookup}
use goncordia.Time.{Time}
use goncordia.Core.{JobArgs, UniqueOpts}
use goncordia.Driver.{JobRow, JobInsertParams, is_permanent_unique_key, is_terminal}
use goncordia.Memory.State.{Driver, holds_key, find_unique_job}
use goncordia.Memory.Jobs.{job_insert}
use goncordia.Memory.Insert.{job_insert-cases}
use goncordia.Memory.Unique.{absent_holder}
use goncordia.Client.{Codecs, build_unique_key}
use goncordia.Client.Keys.{unique_key-permanent}

ended_holder :
    (key : String) (row : JobRow)
    → row.unique_key ≡ key
    → is_terminal row.state ≡ true
    → holds_key key row ≡ is_permanent_unique_key key
unfolding holds_key
ended_holder key row same over = ground (arith, eq_iff row.unique_key key)

not_empty : (key : String) → is_permanent_unique_key key ≡ true → key ≢ ""
unfolding is_permanent_unique_key
not_empty key permanent empty = cc (empty, permanent)

-- An insert with a key that some job holds changes nothing.
insert-taken :
    (d : Driver) (p : JobInsertParams) (k : String) (row : JobRow)
    → lookup k d.jobs ≡ some row
    → holds_key p.unique_key row ≡ true
    → p.unique_key ≢ ""
    → ((job_insert d p).0 ≡ d) × ((job_insert d p).1.unique_skip ≡ true)
unfolding find_unique_job
insert-taken d p k row known holds set = elim (job_insert-cases d p) [
  | inl skipped ↦ skipped
  | inr (made, inl empty) ↦ absurd (set empty)
  | inr (made, inr free) ↦
      let absent = absent_holder p.unique_key k row d.jobs free known in absurd (cc (absent, holds))
]

-- Where the client made a job's unique key with options, and the job has ended in the memory driver: the
-- job holds the key exactly if the options say `Forever`, and then an insert with the key is
-- skipped and changes nothing.
pub ended_key-reserved :
    (codecs : Codecs) (args : JobArgs) (queue : String) (opts : UniqueOpts) (now : Time)
    (key : String)
    → build_unique_key codecs args queue (some opts) now ≡ inr key
    → (d : Driver) (k : String) (row : JobRow) (p : JobInsertParams) → lookup k d.jobs ≡ some row
    → row.unique_key ≡ key
    → is_terminal row.state ≡ true
    → p.unique_key ≡ key
    → (holds_key key row ≡ opts.forever)
      × ((opts.forever ≡ false)
          ⊎ (((job_insert d p).0 ≡ d) × ((job_insert d p).1.unique_skip ≡ true)))
ended_key-reserved codecs args queue opts now key made d k row p known same over again =
    let permanent = unique_key-permanent codecs args queue opts now key made in
    let holder = ended_holder key row same over ∙ permanent in
    (
      holder,
      elim (Bool-cases opts.forever) [
        | inr period ↦ inl period
        | inl forever ↦ inr (
            insert-taken d p k row known (ap (λ t. holds_key t row) again ∙ holder ∙ forever)
              (λ empty. not_empty key (permanent ∙ forever) (sym again ∙ empty)))
      ],
    )
