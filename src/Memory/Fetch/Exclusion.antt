-- ===== src/Memory/Fetch/Exclusion.antt =====
-- `JobFetchBatch` gives a job to one claim at a time.
use goncordia.Prelude.{
  ◌≡◌, sym, ◌∙◌, String, true, false, Option-cases, none, some, inl, inr, arith,
}
use goncordia.Prelude.Assoc.{lookup, Distinct, All-lookup, lookup-map_values}
use goncordia.Prelude.Entries.{Holds}
use goncordia.Time.{Time}
use goncordia.Driver.{JobRow, FetchParams, running}
use goncordia.Memory.State.{Driver}
use goncordia.Memory.Claims.{promote, is_candidate, entry_is_candidate, promoted, chosen}
use goncordia.Memory.Fetch.{chosen-candidates, chosen-Holds}
use mathlib.Core.Option

-- A chosen job is the promoted row of its key, and due.
pub chosen_sound :
    (d : Driver) (params : FetchParams) (k : String) (j : JobRow)
    → Distinct d.jobs
    → lookup k (chosen d params) ≡ some j
    → (Option.map (promote params.queue d.now) (lookup k d.jobs) ≡ some j)
      × (is_candidate params.queue d.now j ≡ true)
unfolding promoted
chosen_sound d params k j h e = (
  sym (lookup-map_values (promote params.queue d.now) k d.jobs)
      ∙ All-lookup (Holds (promoted d params.queue)) k (chosen d params) (chosen-Holds d params h)
          e,
  All-lookup (λ c. entry_is_candidate params.queue d.now c ≡ true) k (chosen d params)
      (chosen-candidates d params) e,
)

running_not_candidate :
    (queue : String) (now : Time) (a : JobRow)
    → a.state ≡ running
    → is_candidate queue now (promote queue now a) ≡ false
unfolding is_candidate promote
running_not_candidate queue now a h = ground arith

-- A running job is not chosen.
pub running_not_chosen :
    (d : Driver) (params : FetchParams) (k : String) (a : JobRow)
    → Distinct d.jobs
    → lookup k d.jobs ≡ some a
    → a.state ≡ running
    → lookup k (chosen d params) ≡ none
running_not_chosen d params k a h known busy = elim (Option-cases (lookup k (chosen d params))) [
  | inl e ↦ e
  | inr (j, e) ↦
      let sound = chosen_sound d params k j h e in
      cc (sound.0, sound.1, known, running_not_candidate params.queue d.now a busy)
]
