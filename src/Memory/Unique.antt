-- ===== src/Memory/Unique.antt =====
-- Unique keys: among the jobs that hold a key there is one for each key.
use goncordia.Prelude.{
  ◌+◌, ◌^◌, ◌<◌, ◌≡◌, ◌≢◌, refl, sym, ap, subst, ◌∙◌, String, ◌=s=◌, eq_iff, Bool, true, false,
  Bool-cases, none, some, inl, inr, ◌⊎◌, arith, List, [], ◌∷◌, find, length, and_left, All,
}
use goncordia.Prelude.Assoc.{Assoc, lookup, insert, lookup-insert}
use goncordia.Time.{Time}
use goncordia.Driver.{JobRow, RescheduleParams, JobInsertParams, is_terminal}
use goncordia.Memory.State.{Driver, holds_key, entry_holds_key, find_unique_job, edit_row}
use goncordia.Memory.Jobs.{job_id, next_seq, new_row}
use goncordia.Memory.Insert.{Inserted, job_insert-cases, Inserted-back, job_insert_many_one}
use goncordia.Memory.Lifecycle.{RowStep}
use goncordia.Memory.Terminal.{terminal_stays}
use goncordia.Memory.Rows.{Rows, Rows-back}
use goncordia.Memory.Run.{Call, insert as insert_call, reschedule, after, step, run}
use goncordia.Memory.Edits.{job_reschedule, reschedule_row}
use goncordia.Memory.Steps.{step-Steps}
use goncordia.Memory.Invariant.{Inv, step-Inv, seq-step-le}

-- Of two jobs that hold the same key, which is set, both are one.
abbrev pub IsUnique : Driver → Type 0
IsUnique d =
    (j k : String) (a b : JobRow)
    → lookup j d.jobs ≡ some a
    → lookup k d.jobs ≡ some b
    → (a.unique_key =s= "") ≡ false
    → holds_key a.unique_key a ≡ true
    → holds_key a.unique_key b ≡ true
    → j ≡ k

pub absent_holder :
    (key k : String) (row : JobRow) (jobs : Assoc JobRow)
    → find (entry_holds_key key) jobs ≡ none
    → lookup k jobs ≡ some row
    → holds_key key row ≡ false
unfolding lookup
absent_holder key k row [] free known = cc
absent_holder key k row ((j, a) ∷ jobs) free known = ground (arith, absent_holder key k row jobs)

-- A job that holds a key after a step of its lifecycle held it before.
holds_key-RowStep :
    (a b : JobRow) (key : String) → RowStep a b → holds_key key b ≡ true → holds_key key a ≡ true
unfolding holds_key
holds_key-RowStep a b key s h = elim (Bool-cases (is_terminal a.state)) [
  | inl over ↦
      let same = terminal_stays s.move over in ground (arith, s.unique_key, ap is_terminal same)
  | inr live ↦ ground (arith, s.unique_key)
]

edit-IsUnique : (d d' : Driver) → Rows RowStep d.jobs d'.jobs → IsUnique d → IsUnique d'
edit-IsUnique d d' rows u j k b b' ej ek set hb hb' =
    let (a, ea, sa) = Rows-back RowStep d.jobs d'.jobs j b rows ej in
    let (a', ea', sa') = Rows-back RowStep d.jobs d'.jobs k b' rows ek in
    u j k a a' ea ea' (ap (λ key. key =s= "") sa.unique_key ∙ set)
      (rw sa.unique_key (holds_key-RowStep a b b.unique_key sa hb))
      (rw sa.unique_key (holds_key-RowStep a' b' b.unique_key sa' hb'))

key_of_holder : (key : String) (row : JobRow) → holds_key key row ≡ true → row.unique_key ≡ key
unfolding holds_key
key_of_holder key row h = (eq_iff row.unique_key key).0 (and_left _ _ h)

unique_key-new_row :
    (now : Time) (id : String) (p : JobInsertParams) → (new_row now id p).unique_key ≡ p.unique_key
unfolding new_row
unique_key-new_row now id p = refl

-- Where the new job has a key, no job of before holds it.
no_old_holder :
    (d : Driver) (p : JobInsertParams) (k : String) (row : JobRow)
    → (p.unique_key ≡ "") ⊎ (find_unique_job d p.unique_key ≡ none)
    → (p.unique_key =s= "") ≡ false
    → lookup k d.jobs ≡ some row
    → holds_key p.unique_key row ≡ false
unfolding find_unique_job
no_old_holder d p k row (inl empty) set known = cc ((eq_iff p.unique_key "").1 empty)
no_old_holder d p k row (inr free) set known = absent_holder p.unique_key k row d.jobs free known

insert-IsUnique :
    (d d' : Driver) (p : JobInsertParams)
    → Inserted d d' p
    → (p.unique_key ≡ "") ⊎ (find_unique_job d p.unique_key ≡ none)
    → IsUnique d
    → IsUnique d'
insert-IsUnique d d' p ins free u j k b b' ej ek set hb hb' =
    cases (Inserted-back d d' p j b ins ej) (Inserted-back d d' p k b' ins ek)
  where
    id : String
    id = job_id (next_seq d.seq)

    IsNew : String → JobRow → Type 0
    IsNew i r = (id ≡ i) × (r ≡ new_row d.now id p)

    key_of_new : (i : String) (r : JobRow) → IsNew i r → r.unique_key ≡ p.unique_key
    key_of_new i r new = ap (λ (r : JobRow). r.unique_key) new.1 ∙ unique_key-new_row d.now id p

    -- An old row cannot hold the key `b.unique_key` where that is the new job's.
    clash :
        (i : String) (r : JobRow)
        → b.unique_key ≡ p.unique_key
        → lookup i d.jobs ≡ some r
        → holds_key b.unique_key r ≡ true
        → ⊥
    clash i r same known holds =
        let empty : (p.unique_key =s= "") ≡ false = ap (λ key. key =s= "") (sym same) ∙ set in
        cc (no_old_holder d p i r free empty known, ap (λ key. holds_key key r) same, holds)

    cases :
        IsNew j b ⊎ (lookup j d.jobs ≡ some b) → IsNew k b' ⊎ (lookup k d.jobs ≡ some b') → j ≡ k
    cases (inl new) (inl new') = sym new.0 ∙ new'.0
    cases (inl new) (inr old') = absurd (clash k b' (key_of_new j b new) old' hb')
    cases (inr old) (inl new') =
        absurd (clash j b (sym (key_of_holder b.unique_key b' hb') ∙ key_of_new k b' new') old hb)
    cases (inr old) (inr old') = u j k b b' old old' set hb hb'

-- The calls that no reschedule is among.
abbrev pub no_reschedule : Call → Bool
no_reschedule (reschedule _) = false
no_reschedule _ = true

step-IsUnique :
    (d : Driver) (c : Call) → Inv d → no_reschedule c ≡ true → IsUnique d → IsUnique (step d c)
unfolding step
step-IsUnique d (insert_call p) v n u = elim (job_insert-cases d p) [
  | inl (same, skip) ↦ rw (job_insert_many_one, same) u
  | inr (ins, free) ↦ rw job_insert_many_one (insert-IsUnique d _ p ins free u)
]
step-IsUnique d (reschedule p) v n u = cc
step-IsUnique d c v n u = edit-IsUnique d (step d c) (step-Steps d c v.distinct refl) u

-- After any calls but reschedules, from a driver within the invariant, while the sequence number
-- does not wrap: if no key had two holders at first, then no key has two holders.
pub run-IsUnique :
    (d : Driver) (cs : List Call)
    → d.seq + length cs < 2 ^ 64
    → Inv d
    → All (λ c. no_reschedule c ≡ true) cs
    → IsUnique d
    → IsUnique (run d cs)
unfolding run
run-IsUnique d [] room v n u = u
run-IsUnique d (c ∷ cs) room v n u =
    run-IsUnique (step d c) cs (omega (arith, seq-step-le d c)) (step-Inv d c (omega arith) v) n.1
      (step-IsUnique d c v n.0 u)

-- A reschedule of an ended job ignores its key: where another job has taken the key meanwhile, two
-- jobs hold it afterwards.
pub reschedule_shares_key :
    (d : Driver) (params : RescheduleParams) (j : String) (a b : JobRow)
    → lookup j d.jobs ≡ some a
    → lookup params.id d.jobs ≡ some b
    → j ≢ params.id
    → (a.unique_key =s= "") ≡ false
    → holds_key a.unique_key a ≡ true
    → b.unique_key ≡ a.unique_key
    → ¬ (IsUnique (after d (job_reschedule d params)))
unfolding job_reschedule holds_key
reschedule_shares_key d params j a b ej ek ne set holds same u =
    let jobs = insert params.id (reschedule_row params b) d.jobs in
    let after_reschedule : after d (job_reschedule d params) ≡ record d { jobs = jobs } =
      rw (ek, edit_row) in
    let u' : IsUnique (record d { jobs = jobs }) = subst IsUnique after_reschedule u in
    ne (
      u' j params.id a (reschedule_row params b)
        (lookup-insert params.id j (reschedule_row params b) d.jobs
          ∙ ground (arith, eq_iff params.id j))
        (lookup-insert params.id params.id (reschedule_row params b) d.jobs
          ∙ ground (arith, eq_iff params.id params.id))
        set holds (ground (arith, eq_iff b.unique_key a.unique_key)))
