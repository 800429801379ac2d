-- ===== src/Admission.antt =====
-- admission.go: the queue-depth admission of new jobs.
use goncordia.Prelude.{
  ℕ, suc, ◌+◌, ◌≤◌, ◌<◌, ◌≡◌, refl, ap, inl, inr, ℤ, positive, pos_part, ltb, if◌then◌else◌, true,
  not, Bool-cases, Option-cases, String, ◌=s=◌, eq_iff, Option, none, some, List, [], ◌∷◌, All,
  arith,
}
use goncordia.Prelude.Assoc.{Assoc, lookup, insert, lookup-insert, All-lookup}
use goncordia.Driver.{
  JobInsertParams, QueueStats, available, scheduled, retryable, running, Error, Result-cases, ok,
  err,
}
use goncordia.Driver.Executor.{AdminExecutor}

pub record QueueFullError : Type 0 where
  pub queue : String
  pub active : ℕ
  pub incoming : ℕ
  pub max_active : ℤ

pub data AdmissionError : Type 0 where
  queue_full : QueueFullError → AdmissionError
  stats_failed : String → Error → AdmissionError

-- incoming[queue]++
unfoldable pub count_in : String → Assoc ℕ → Assoc ℕ
count_in queue incoming = elim (lookup queue incoming) [
  | none ↦ insert queue 1 incoming
  | some n ↦ insert queue (suc n) incoming
]

unfoldable pub incoming_from : Assoc ℕ → List JobInsertParams → Assoc ℕ
unfolding count_in
incoming_from incoming [] = incoming
incoming_from incoming (job ∷ jobs) = incoming_from (count_in job.queue incoming) jobs

abbrev or_zero : Option ℕ → ℕ
or_zero none = 0
or_zero (some n) = n

-- How many of the jobs are for the queue.
abbrev pub jobs_for : String → List JobInsertParams → ℕ
jobs_for queue [] = 0
jobs_for queue (job ∷ jobs) =
    if job.queue =s= queue then suc (jobs_for queue jobs) else jobs_for queue jobs

count_in-or_zero :
    (at queue : String) (incoming : Assoc ℕ)
    → or_zero (lookup queue (count_in at incoming)) ≡ (
        if at =s= queue
        then suc (or_zero (lookup queue incoming))
        else or_zero (lookup queue incoming))
unfolding count_in
count_in-or_zero at queue incoming = elim (Option-cases (lookup at incoming)) [
  | inl e ↦ rw (e, count_in, lookup-insert) (ground (arith, e, eq_iff at queue))
  | inr (n, e) ↦ rw (e, count_in, lookup-insert) (ground (arith, e, eq_iff at queue))
]

counted :
    (queue : String) (incoming : Assoc ℕ) (jobs : List JobInsertParams)
    → or_zero (lookup queue (incoming_from incoming jobs))
      ≡ or_zero (lookup queue incoming) + jobs_for queue jobs
unfolding incoming_from
counted queue incoming [] = omega arith
counted queue incoming (job ∷ jobs) = ground (
  arith,
  counted queue (count_in job.queue incoming) jobs,
  count_in-or_zero job.queue queue incoming,
)

none_in : (queue : String) → or_zero (lookup queue []) ≡ 0
unfolding lookup
none_in queue = refl

unfoldable pub active_jobs : QueueStats → ℕ
active_jobs stats =
    stats.states available + stats.states scheduled + stats.states retryable + stats.states running

-- A missing queue has limit 0, which is none.
unfoldable pub limit_of : Assoc ℤ → String → ℤ
limit_of max_active queue = elim (lookup queue max_active) [ none ↦ ℤ.pos 0 | some limit ↦ limit ]

module _ {S : Type 0} (admin : AdminExecutor S) (max_active : Assoc ℤ) where
  -- The check of one queue, and then of the others; `none` admits.
  unfoldable pub check : S → List (String × ℕ) → Option AdmissionError
  unfolding active_jobs
  check s [] = none
  check s ((queue, count) ∷ rest) =
      let limit = limit_of max_active queue in
      let others = check s rest in
      if not (positive limit) then others else elim (admin.queue_stats s queue) [
        | err e ↦ some (stats_failed queue e)
        | ok stats ↦
            if ltb (pos_part limit) (active_jobs stats + count)
            then some (
                queue_full (record {
                  queue = queue;
                  active = active_jobs stats;
                  incoming = count;
                  max_active = limit;
                }))
            else others
      ]

  unfoldable pub admit : S → List JobInsertParams → Option AdmissionError
  unfolding check incoming_from
  admit s jobs = check s (incoming_from [] jobs)

  -- A queue with a limit has room for what comes in.
  abbrev pub HasRoom : S → String × ℕ → Type 0
  HasRoom s (queue, count) =
      positive (limit_of max_active queue) ≡ true
      → (stats : QueueStats) × (admin.queue_stats s queue ≡ ok stats)
        × (active_jobs stats + count ≤ pos_part (limit_of max_active queue))

  check-HasRoom :
      (s : S) (queues : List (String × ℕ)) → check s queues ≡ none → All (HasRoom s) queues
  unfolding check
  check-HasRoom s [] e = tt
  check-HasRoom s ((queue, count) ∷ rest) e =
      elim (Bool-cases (positive (limit_of max_active queue))) [
        | inr free ↦ (λ limited. cc (free, limited), check-HasRoom s rest (ground (arith, free)))
        | inl limited ↦ elim (Result-cases (admin.queue_stats s queue)) [
          | inl (x, failed) ↦ absurd (ground (arith, limited, failed))
          | inr (stats, known) ↦
              elim (Bool-cases
                (ltb (pos_part (limit_of max_active queue)) (active_jobs stats + count))) [
                  | inl full ↦ absurd (ground (arith, limited, known, full))
                  | inr room ↦ (
                    λ l. (stats, known, ground arith),
                    check-HasRoom s rest (ground (arith, limited, known, room)),
                  )
                ]
        ]
      ]

  -- Admitted jobs fit: for each queue with a positive limit that some of the jobs are for, its
  -- statistics can be read, and the active jobs that they count and the jobs for the queue are
  -- together at most the limit.
  pub admit-room :
      (s : S) (jobs : List JobInsertParams) (queue : String)
      → admit s jobs ≡ none
      → 0 < jobs_for queue jobs
      → positive (limit_of max_active queue) ≡ true
      → (stats : QueueStats) × (admin.queue_stats s queue ≡ ok stats)
        × (active_jobs stats + jobs_for queue jobs ≤ pos_part (limit_of max_active queue))
  unfolding admit
  admit-room s jobs queue e some_jobs limited =
      elim (Option-cases (lookup queue (incoming_from [] jobs))) [
        | inl missing ↦
            absurd
              (omega (arith, some_jobs, counted queue [] jobs, ap or_zero missing, none_in queue))
        | inr (n, known) ↦
            let (stats, read, fits) =
              All-lookup (HasRoom s) queue (incoming_from [] jobs)
                (check-HasRoom s (incoming_from [] jobs) e) known limited in
            (
              stats,
              read,
              omega (arith, counted queue [] jobs, ap or_zero known, none_in queue, fits),
            )
      ]
