-- ===== src/Memory/Fetch/Once.antt =====
-- `JobFetchBatch`: of two fetches, one gets a job.
use goncordia.Prelude.{◌≡◌, refl, ap, ◌∙◌, String, some, none}
use goncordia.Prelude.Assoc.{lookup, Distinct}
use goncordia.Driver.{JobRow, FetchParams}
use goncordia.Memory.State.{Driver}
use goncordia.Memory.Claims.{promote, claim, chosen, job_fetch_batch}
use goncordia.Memory.Fetch.{IsOpen, lookup-job_fetch_batch, claimed_or}
use goncordia.Memory.Fetch.Exclusion.{running_not_chosen}
use goncordia.Memory.Distinct.{fetch-Distinct}
use mathlib.Core.Option

-- Where the IDs are distinct and the first fetch's queue is open: a job that a fetch claims is not
-- claimed by the next fetch, of whatever worker and queue.
pub fetch_exclusive :
    (d : Driver) (params params' : FetchParams) (k : String) (j : JobRow)
    → Distinct d.jobs
    → IsOpen d params.queue
    → lookup k (chosen d params) ≡ some j
    → lookup k (chosen (job_fetch_batch d params).0 params') ≡ none
unfolding claim
fetch_exclusive d params params' k j h is_open e =
    running_not_chosen (job_fetch_batch d params).0 params' k (claim d.now params j)
      (fetch-Distinct d params h)
      (lookup-job_fetch_batch d params k is_open h
        ∙ ap
            (λ c.
              claimed_or d.now params c (Option.map (promote params.queue d.now) (lookup k d.jobs)))
            e)
      refl
