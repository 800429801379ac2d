-- ===== src/Memory/Fetch/Order.antt =====
-- `JobFetchBatch`: how many due jobs a fetch claims, which, and in which order.
use goncordia.Prelude.{
  ◌≤◌, ◌<◌, ◌≡◌, refl, ◌∙◌, String, true, false, none, some, [], ◌∷◌, map, inl, inr, keep, length,
  min, All, All-imp, All-map, length-map, length-take, positive, pos_part, arith, eq_iff,
}
use goncordia.Prelude.Assoc.{Assoc, lookup, Distinct}
use goncordia.Prelude.Sort.{Chain, sort-Chain, Chain-take, length-sort}
use goncordia.Prelude.Entries.{keep-Holds, take-sort_first}
use goncordia.Time.{Time}
use goncordia.Driver.{JobRow, FetchParams, running}
use goncordia.Memory.State.{Driver}
use goncordia.Memory.Claims.{
  is_candidate, claims_before, claim, fetch_limit, entry_is_candidate, entry_claims_before,
  promoted, chosen, job_fetch_batch,
}
use goncordia.Memory.Fetch.{
  candidates, chosen-candidates, rows-job_fetch_batch, claims_before_asymm, claims_before_weak,
  IsOpen, job_fetch_batch-cases, promoted-Distinct,
}

abbrev pub IsClaim : Driver → FetchParams → JobRow → Type 0
IsClaim d params row =
    (row.state ≡ running)
    × (row.queue ≡ params.queue)
    × (row.worker_id ≡ params.worker_id)
    × (row.attempted_at ≡ some d.now)
    × (row.run_at ≤ d.now)
    × (0 < row.attempt_num)

claim-IsClaim :
    (d : Driver) (params : FetchParams) (j : JobRow)
    → is_candidate params.queue d.now j ≡ true
    → IsClaim d params (claim d.now params j)
unfolding is_candidate claim
claim-IsClaim d params j h = ground (arith, eq_iff j.queue params.queue)

-- Every row that a fetch returns is a running claim of the fetch's worker on the fetch's queue, begun
-- at the driver's time, whose `RunAt` has come and which counts an attempt.
rows-IsClaim :
    (d : Driver) (params : FetchParams) → All (IsClaim d params) (job_fetch_batch d params).1
rows-IsClaim d params = elim (job_fetch_batch-cases d params) [
  | inl e ↦ rw e tt
  | inr is_open ↦ rw (rows-job_fetch_batch d params is_open) (
      All-map _ _ (chosen d params)
        (All-imp (λ e h. claim-IsClaim d params e.1 h) _ (chosen-candidates d params)))
]

claims_before-claim :
    (now : Time) (params : FetchParams) (a b : JobRow)
    → claims_before (claim now params a) (claim now params b) ≡ claims_before a b
unfolding claims_before claim
claims_before-claim now params a b = refl

Chain-claim :
    (now : Time) (params : FetchParams) (es : Assoc JobRow)
    → Chain entry_claims_before es
    → Chain claims_before (map (λ e. claim now params e.1) es)
Chain-claim now params [] c = tt
Chain-claim now params (e ∷ []) c = tt
Chain-claim now params (e ∷ e' ∷ es) c =
    (claims_before-claim now params e'.1 e.1 ∙ c.0, Chain-claim now params (e' ∷ es) c.1)

chosen-Chain : (d : Driver) (params : FetchParams) → Chain entry_claims_before (chosen d params)
unfolding chosen
chosen-Chain d params =
    Chain-take entry_claims_before _ _
      (sort-Chain entry_claims_before (λ e e'. claims_before_asymm e.1 e'.1) (candidates d params))

-- An open queue's fetch returns its rows by priority DESC, run_at ASC, created_at ASC, id ASC.
rows-Chain :
    (d : Driver) (params : FetchParams)
    → IsOpen d params.queue
    → Chain claims_before (job_fetch_batch d params).1
rows-Chain d params is_open =
    rw (rows-job_fetch_batch d params is_open)
      (Chain-claim d.now params (chosen d params) (chosen-Chain d params))

-- An open queue's fetch with a positive limit claims as many due jobs as the limit allows.
length-rows :
    (d : Driver) (params : FetchParams)
    → IsOpen d params.queue
    → positive params.limit ≡ true
    → length (job_fetch_batch d params).1
      ≡ min
          (pos_part params.limit)
          (length (keep (entry_is_candidate params.queue d.now) (promoted d params.queue)))
unfolding chosen fetch_limit
length-rows d params is_open h =
    rw (rows-job_fetch_batch d params is_open, length-map, length-take, length-sort, h)

-- An open queue's fetch with a positive limit claims as many due jobs as the limit allows, and returns
-- them by priority DESC, run_at ASC, created_at ASC, id ASC; every row that it returns is a
-- running claim of the fetch's worker on the fetch's queue, begun at the driver's time, whose
-- `RunAt` has come and which counts an attempt.
pub fetch_rows :
    (d : Driver) (params : FetchParams)
    → IsOpen d params.queue
    → positive params.limit ≡ true
    → (length (job_fetch_batch d params).1
        ≡ min
            (pos_part params.limit)
            (length (keep (entry_is_candidate params.queue d.now) (promoted d params.queue))))
      × Chain claims_before (job_fetch_batch d params).1
      × All (IsClaim d params) (job_fetch_batch d params).1
fetch_rows d params is_open h =
    (length-rows d params is_open h, rows-Chain d params is_open, rows-IsClaim d params)

-- Where the IDs are distinct: a due job of the queue that is not among the jobs that a fetch
-- chooses precedes none of them.
pub fetch_takes_first :
    (d : Driver) (params : FetchParams) (k : String) (u : JobRow)
    → Distinct d.jobs
    → lookup k (promoted d params.queue) ≡ some u
    → is_candidate params.queue d.now u ≡ true
    → lookup k (chosen d params) ≡ none
    → All (λ e. claims_before u e.1 ≡ false) (chosen d params)
unfolding chosen
fetch_takes_first d params k u distinct known due =
    take-sort_first entry_claims_before (λ e e'. claims_before_asymm e.1 e'.1)
      (λ e e' e''. claims_before_weak e.1 e'.1 e''.1) _ (candidates d params) k u
      (keep-Holds _ k u (promoted d params.queue) (promoted-Distinct d params.queue distinct) known
        due)
