-- ===== src/Memory/Fetch.antt =====
-- `JobFetchBatch`: what is claimed, in which order, and what becomes of every row.
pub mod Order
pub mod Exclusion
pub mod Once
use goncordia.Prelude.{
  ℕ, suc, ◌≤◌, ◌≡◌, refl, sym, ap, ◌∙◌, String, ◌=s=◌, eq_iff, Bool, true, false, Bool-cases,
  Option-cases, ◌⊎◌, if◌then◌else◌, not, ◌==◌, ltb, eqb_ℤ, ltb_ℤ, Option, none, some, List, [], ◌∷◌,
  map, inl, inr, keep, take, drop, length, min, All, All-imp, All-keep, All-take, All-and, All-All,
  All-append, keep-passes, length-take, take-append-drop, text_ltb_asymm, text_ltb_trans, ℤ,
  positive, pos_part, arith,
}
use goncordia.Prelude.Assoc.{
  Assoc, lookup, insert, Distinct, lookup-insert, lookup-map_values, map_values-Distinct,
  All-lookup,
}
use goncordia.Prelude.Sort.{
  sort, Chain, sort-Chain, Chain-take, sort-All, sort-All_inv, sort-Ordered, Ordered-take-drop,
  length-sort,
}
use goncordia.Prelude.Entries.{
  Holds, Holds-self, Holds-insert, keep-Distinct, keep-Holds, sort-Distinct, take-Distinct,
}
use goncordia.Time.{Time}
use goncordia.Driver.{JobRow, QueueRow, FetchParams, available, running}
use goncordia.Memory.State.{Driver}
use goncordia.Memory.Claims.{
  promote, is_candidate, claims_before, claim, fetch_limit, entry_is_candidate, entry_claims_before,
  claim_all, promoted, chosen, fetch_open, job_fetch_batch,
}
use mathlib.Core.Option

pub claims_before_asymm : (a b : JobRow) → claims_before a b ≡ true → claims_before b a ≡ false
unfolding claims_before
claims_before_asymm a b h = ground (arith, text_ltb_asymm a.id b.id)

-- A comparison by a number first is weak if the comparison that breaks its ties is.
lex_weak :
    (x y z : ℕ) (yx zy zx : Bool)
    → (yx ≡ false → zy ≡ false → zx ≡ false)
    → (if not (y == x) then ltb y x else yx) ≡ false
    → (if not (z == y) then ltb z y else zy) ≡ false
    → (if not (z == x) then ltb z x else zx) ≡ false
lex_weak x y z yx zy zx ties h k = ground arith

lex_weak_ℤ :
    (x y z : ℤ) (yx zy zx : Bool)
    → (yx ≡ false → zy ≡ false → zx ≡ false)
    → (if not (eqb_ℤ y x) then ltb_ℤ x y else yx) ≡ false
    → (if not (eqb_ℤ z y) then ltb_ℤ y z else zy) ≡ false
    → (if not (eqb_ℤ z x) then ltb_ℤ x z else zx) ≡ false
lex_weak_ℤ x y z yx zy zx ties h k = ground arith

pub claims_before_weak :
    (a b c : JobRow)
    → claims_before b a ≡ false
    → claims_before c b ≡ false
    → claims_before c a ≡ false
unfolding claims_before
claims_before_weak a b c = lex_weak_ℤ a.priority b.priority c.priority _ _ _ (
    lex_weak a.run_at b.run_at c.run_at _ _ _
      (lex_weak a.created_at b.created_at c.created_at _ _ _ (text_ltb_trans a.id b.id c.id)))

pub promoted-Distinct :
    (d : Driver) (queue : String) → Distinct d.jobs → Distinct (promoted d queue)
unfolding promoted
promoted-Distinct d queue h = map_values-Distinct _ d.jobs h

module _ (d : Driver) (params : FetchParams) where
  abbrev pub candidates : Assoc JobRow
  candidates = keep (entry_is_candidate params.queue d.now) (promoted d params.queue)

  pub chosen-Distinct : Distinct d.jobs → Distinct (chosen d params)
  unfolding chosen
  chosen-Distinct h = take-Distinct _ _ (
      sort-Distinct entry_claims_before candidates
        (keep-Distinct _ (promoted d params.queue) (promoted-Distinct d params.queue h)))

  chosen-All : (P : String × JobRow → Type 0) → All P candidates → All P (chosen d params)
  unfolding chosen
  chosen-All P h = All-take P _ _ (sort-All entry_claims_before P candidates h)

  pub chosen-Holds : Distinct d.jobs → All (Holds (promoted d params.queue)) (chosen d params)
  chosen-Holds h = chosen-All _ (
      All-keep _ _ (promoted d params.queue)
        (Holds-self (promoted d params.queue) (promoted-Distinct d params.queue h)))

  pub chosen-candidates :
      All (λ e. entry_is_candidate params.queue d.now e ≡ true) (chosen d params)
  chosen-candidates = chosen-All _ (keep-passes _ (promoted d params.queue))

-- The row under a key after the claims: claimed if it was chosen.
abbrev pub claimed_or : Time → FetchParams → Option JobRow → Option JobRow → Option JobRow
claimed_or now params none old = old
claimed_or now params (some j) old = some (claim now params j)

lookup-claim_all :
    (now : Time) (params : FetchParams) (es m : Assoc JobRow) (k : String)
    → Distinct es
    → lookup k (claim_all now params es m).0 ≡ claimed_or now params (lookup k es) (lookup k m)
unfolding claim_all lookup
lookup-claim_all now params [] m k h = refl
lookup-claim_all now params ((j, row) ∷ es) m k h = ground (
  arith,
  eq_iff j k,
  lookup-claim_all now params es (insert j (claim now params row) m) k,
  lookup-insert j k (claim now params row) m,
)

rows-claim_all :
    (now : Time) (params : FetchParams) (es m : Assoc JobRow)
    → (claim_all now params es m).1 ≡ map (λ e. claim now params e.1) es
unfolding claim_all
rows-claim_all now params [] m = refl
rows-claim_all now params ((j, row) ∷ es) m =
    ap (◌∷◌ (claim now params row))
      (rows-claim_all now params es (insert j (claim now params row) m))

-- A queue is open if it is known and not paused.
abbrev pub IsOpen : Driver → String → Type 0
IsOpen d queue = (q : QueueRow) × (lookup queue d.queues ≡ some q) × (q.paused ≡ false)

pub job_fetch_batch_open :
    (d : Driver) (params : FetchParams)
    → IsOpen d params.queue
    → job_fetch_batch d params ≡ fetch_open d params
job_fetch_batch_open d params (q, known, unpaused) =
    unfold job_fetch_batch in rw (known, job_fetch_batch, unpaused)

-- A fetch from a queue that is not open does nothing.
pub job_fetch_batch-cases :
    (d : Driver) (params : FetchParams)
    → (job_fetch_batch d params ≡ (d, [])) ⊎ IsOpen d params.queue
unfolding job_fetch_batch
job_fetch_batch-cases d params = elim (Option-cases (lookup params.queue d.queues)) [
  | inl e ↦ inl (rw (e, job_fetch_batch))
  | inr (q, e) ↦ elim (Bool-cases q.paused) [
    | inl p ↦ inl (rw (e, job_fetch_batch, p))
    | inr p ↦ inr (q, e, p)
  ]
]

-- Where the IDs are distinct: an open queue's fetch changes the rows that it chose by `claim`, and
-- every other by `promote`.
pub lookup-job_fetch_batch :
    (d : Driver) (params : FetchParams) (k : String)
    → IsOpen d params.queue
    → Distinct d.jobs
    → lookup k (job_fetch_batch d params).0.jobs
      ≡ claimed_or d.now params
          (lookup k (chosen d params))
          (Option.map (promote params.queue d.now) (lookup k d.jobs))
unfolding fetch_open promoted
lookup-job_fetch_batch d params k is_open h = rw (job_fetch_batch_open d params is_open) (
    lookup-claim_all d.now params (chosen d params) (promoted d params.queue) k
      (chosen-Distinct d params h)
    ∙ ap (claimed_or d.now params (lookup k (chosen d params)))
        (lookup-map_values (promote params.queue d.now) k d.jobs))

pub rows-job_fetch_batch :
    (d : Driver) (params : FetchParams)
    → IsOpen d params.queue
    → (job_fetch_batch d params).1 ≡ map (λ e. claim d.now params e.1) (chosen d params)
unfolding fetch_open
rows-job_fetch_batch d params is_open =
    rw (job_fetch_batch_open d params is_open)
      (rows-claim_all d.now params (chosen d params) (promoted d params.queue))
