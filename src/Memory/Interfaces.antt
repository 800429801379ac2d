-- ===== src/Memory/Interfaces.antt =====
-- driver/memory: the backend as an `Executor`, and its schedule cursors as the store that the rate
-- limits ask for. None of its methods fails but for the reasons that the driver's interface names.
use goncordia.Time.{Time}
use goncordia.Prelude.{◌≡◌, ◌≢◌, ◌⊎◌, none, true, false}
use goncordia.Prelude.{refl, ◌∙◌, inl, inr, ◌==◌, Bool-cases, Option-cases, eq_iff, some, arith}
use goncordia.Prelude.Assoc.{lookup, lookup-insert}
use goncordia.Driver.{Result, ok, err, ScheduleCursorCreateParams, ScheduleCursorAdvanceParams}
use goncordia.Driver.Pagination.{Codec, JobCursorV1}
use goncordia.Driver.Executor.{Executor, AdminExecutor}
use goncordia.Driver.RateLimit.{CursorStore}
use goncordia.Memory.State.{Driver}
use goncordia.Memory.Jobs.{job_insert_many, job_get_by_id, job_list, queue_stats}
use goncordia.Memory.Claims.{job_fetch_batch, job_set_state_if_running}
use goncordia.Memory.Edits.{job_cancel, job_delete, job_reschedule}
use goncordia.Memory.Leases.{
  leader_attempt_elect, leader_resign, schedule_cursor_get_or_create, schedule_cursor_advance,
}

-- An edit that fails leaves the driver as it was.
abbrev edited : Driver → Result Driver → Driver × Result (Unit {0})
edited d (ok d') = (d', ok tt)
edited d (err e) = (d, err e)

abbrev pub executor : Executor Driver
executor = record {
  job_insert_many = λ d ps. let (d', rs) = job_insert_many d ps in (d', ok rs);
  job_fetch_batch = λ d p. let (d', rows) = job_fetch_batch d p in (d', ok rows);
  job_set_state_if_running = λ d p. edited d (job_set_state_if_running d p);
  job_get_by_id = λ d id. elim (job_get_by_id d id) [ ok row ↦ ok (some row) | err e ↦ err e ];
  job_cancel = λ d id. edited d (job_cancel d id);
  job_delete = λ d id. edited d (job_delete d id);
  job_reschedule = λ d p. edited d (job_reschedule d p);
  leader_attempt_elect = λ d p. let (d', won) = leader_attempt_elect d p in (d', ok won);
  leader_resign = λ d p. (leader_resign d p, ok tt);
  schedule_cursor_get_or_create =
      λ d p. let (d', r) = schedule_cursor_get_or_create d p in (d', ok r);
  schedule_cursor_advance = λ d p. let (d', won) = schedule_cursor_advance d p in (d', ok won);
  now = λ d. d.now;
}

abbrev pub admin : Codec JobCursorV1 → AdminExecutor Driver
admin codec = record {
  job_list = λ d p. job_list codec d p;
  queue_stats = λ d q. ok (queue_stats d q);
}

pub get_or_create_cases :
    (d : Driver) (p : ScheduleCursorCreateParams)
    → ((at : Time) × (lookup p.id d.cursors ≡ some at)
        × (lookup p.id (schedule_cursor_get_or_create d p).0.cursors ≡ some at)
        × ((executor.schedule_cursor_get_or_create d p).1
            ≡ ok (record { at = at; created = false })))
      ⊎ ((lookup p.id d.cursors ≡ none)
          × (lookup p.id (schedule_cursor_get_or_create d p).0.cursors ≡ some p.initial_at)
          × ((executor.schedule_cursor_get_or_create d p).1
              ≡ ok (record { at = p.initial_at; created = true })))
unfolding schedule_cursor_get_or_create
get_or_create_cases d p = elim (Option-cases (lookup p.id d.cursors)) [
  | inr (at, e) ↦
      inl
        (at, e, rw (e, schedule_cursor_get_or_create) e, rw (e, schedule_cursor_get_or_create) refl)
  | inl e ↦ inr (
    e,
    rw (e, schedule_cursor_get_or_create)
        (lookup-insert p.id p.id p.initial_at d.cursors ∙ ground (arith, eq_iff p.id p.id)),
    rw (e, schedule_cursor_get_or_create) refl,
  )
]

pub advance_cases :
    (d : Driver) (p : ScheduleCursorAdvanceParams)
    → ((lookup p.id d.cursors ≡ some p.expected)
        × (lookup p.id (schedule_cursor_advance d p).0.cursors ≡ some p.next)
        × ((executor.schedule_cursor_advance d p).1 ≡ ok true))
      ⊎ ((lookup p.id d.cursors ≢ some p.expected)
          × (lookup p.id (schedule_cursor_advance d p).0.cursors ≡ lookup p.id d.cursors)
          × ((executor.schedule_cursor_advance d p).1 ≡ ok false))
unfolding schedule_cursor_advance
advance_cases d p = elim (Option-cases (lookup p.id d.cursors)) [
  | inl e ↦
      inr
        ((λ h. cc (e, h)), rw (e, schedule_cursor_advance) e, rw (e, schedule_cursor_advance) refl)
  | inr (at, e) ↦ elim (Bool-cases (at == p.expected)) [
    | inl same ↦ inl (
      ground (arith, e, same),
      rw (e, schedule_cursor_advance, same)
          (lookup-insert p.id p.id p.next d.cursors ∙ ground (arith, eq_iff p.id p.id)),
      rw (e, schedule_cursor_advance, same) refl,
    )
    | inr other ↦ inr (
      (λ h. ground (arith, e, h, other)),
      rw (e, schedule_cursor_advance, other) e,
      rw (e, schedule_cursor_advance, other) refl,
    )
  ]
]

-- The schedule cursors of the memory driver are linearizable.
unfoldable pub cursor_store : CursorStore Driver
cursor_store = record {
  get_or_create = λ d p. executor.schedule_cursor_get_or_create d p;
  advance = λ d p. executor.schedule_cursor_advance d p;
  cursor = λ d id. lookup id d.cursors;
  get_or_create_law =
      λ d p. elim (get_or_create_cases d p) [ inl old ↦ inl old | inr made ↦ inr (inl made) ];
  advance_law = λ d p. elim (advance_cases d p) [ inl won ↦ inl won | inr lost ↦ inr (inl lost) ];
}
