-- ===== src/Driver.antt =====
-- driver/driver.go: the rows, parameters and results that every backend shares.
-- A `time.Time` is the count of nanoseconds since Go's zero time (year 1, UTC), so that the zero
-- time is 0 and `IsZero` is the test for 0; a `time.Duration` is a signed count of nanoseconds. An
-- `int` and an `int64` are unbounded. A pointer that may be nil is an `Option`.

pub mod Pagination
pub mod Executor
pub mod RateLimit
use goncordia.Prelude.{
  ◌≡◌, refl, ◌⊎◌, inl, inr, ℕ, suc, ℤ, positive, pos_part, String, ◌=s=◌, starts_with, Bool, true,
  false, ◌||◌, ◌&&◌, ◌==◌, not, if◌then◌else◌, Option, List, [], ◌∷◌,
}
use goncordia.Time.{Time}

abbrev permanent_unique_key_prefix : String
permanent_unique_key_prefix = "uf2_"

unfoldable pub is_permanent_unique_key : String → Bool
is_permanent_unique_key key = starts_with key permanent_unique_key_prefix

pub record Capabilities : Type 0 where
  pub native_tx : Bool
  pub listen_notify : Bool
  pub change_streams : Bool
  pub skip_locked : Bool
  pub unique_jobs : Bool
  pub advisory_locks : Bool
  pub linearizable_leases : Bool
  pub linearizable_cas : Bool
  pub lifecycle_timestamps : Bool
  pub bounded_fetch : Bool
  pub strict_fetch_ordering : Bool

pub data JobState : Type 0 where
  available running completed retryable discarded cancelled scheduled : JobState

-- The comparison of two states as strings; the constants are distinct.
unfoldable pub state_eq : JobState → JobState → Bool
state_eq available available = true
state_eq running running = true
state_eq completed completed = true
state_eq retryable retryable = true
state_eq discarded discarded = true
state_eq cancelled cancelled = true
state_eq scheduled scheduled = true
state_eq _ _ = false

-- The condition `completed || discarded || cancelled`, which the drivers write out.
unfoldable pub is_terminal : JobState → Bool
is_terminal completed = true
is_terminal discarded = true
is_terminal cancelled = true
is_terminal _ = false

pub data Error : Type 0 where
  unsupported not_found conflict stale_claim invalid_cursor : Error

pub data Result {ℓ} (A : Type ℓ) : Type ℓ where
  ok : A → Result A
  err : Error → Result A

pub Result-cases {ℓ} :
    {A : Type ℓ} (r : Result A) → ((e : Error) × (r ≡ err e)) ⊎ ((a : A) × (r ≡ ok a))
Result-cases (ok a) = inr (a, refl)
Result-cases (err e) = inl (e, refl)

-- A guarded result that is `ok` passed its guard.
pub guarded-ok {ℓ} :
    {A : Type ℓ} (test : Bool) (x : A) (e : Error) {y : A}
    → (if test then ok x else err e) ≡ ok y
    → (test ≡ true) × (x ≡ y)
guarded-ok true x e h = (refl, cc)
guarded-ok false x e h = cc

pub record AttemptError : Type 0 where
  pub at : Time
  pub attempt : ℕ
  pub error : String
  pub trace : String

pub record JobRow : Type 0 where
  pub id : String
  pub queue : String
  pub kind : String
  pub args : String
  pub state : JobState
  pub priority : ℤ
  pub run_at : Time
  pub created_at : Time
  pub attempted_at : Option Time
  pub started_at : Option Time
  pub lease_expires_at : Option Time
  pub finalized_at : Option Time
  pub attempt_num : ℕ
  pub max_retry : ℤ
  pub timeout : ℤ
  pub tags : List String
  pub errors : List AttemptError
  pub unique_key : String
  pub worker_id : String
  pub pipeline_id : String

pub record QueueRow : Type 0 where
  pub name : String
  pub paused : Bool
  pub created_at : Time
  pub updated_at : Time

pub record JobInsertParams : Type 0 where
  pub queue : String
  pub kind : String
  pub args : String
  pub priority : ℤ
  pub run_at : Time
  pub unique_key : String
  pub max_retry : ℤ
  pub timeout : ℤ
  pub tags : List String
  pub pipeline_id : String

pub record JobInsertResult : Type 0 where
  pub job : JobRow
  pub unique_skip : Bool

pub record FetchParams : Type 0 where
  pub queue : String
  pub limit : ℤ
  pub worker_id : String
  pub lease_duration : ℤ

pub record JobRescueParams : Type 0 where
  pub queue : String
  pub at : Time
  pub before : Time

pub record JobHeartbeatParams : Type 0 where
  pub id : String
  pub worker_id : String
  pub attempt : ℕ
  pub at : Time
  pub lease_expires_at : Time

pub record JobMarkStartedParams : Type 0 where
  pub id : String
  pub worker_id : String
  pub attempt : ℕ
  pub at : Time

pub record JobSetStateParams : Type 0 where
  pub id : String
  pub state : JobState
  pub error : Option String
  pub trace : Option String
  pub attempt : ℕ
  pub retry_at : Time
  pub expected_worker_id : String
  pub expected_attempt : ℤ
  pub yields : Bool

-- Each precondition counts only where it is set.
unfoldable pub matches_claim : JobSetStateParams → String → ℕ → Bool
matches_claim p worker_id attempt =
    (p.expected_worker_id =s= "" || p.expected_worker_id =s= worker_id)
    && (not (positive p.expected_attempt) || pos_part p.expected_attempt == attempt)

pub record RescheduleParams : Type 0 where
  pub id : String
  pub run_at : Time

pub record QueueListParams : Type 0 where
  pub limit : ℤ
  pub cursor : String

-- `none` is the empty state, which does not filter.
pub record JobListParams : Type 0 where
  pub queue : String
  pub state : Option JobState
  pub kind : String
  pub limit : ℤ
  pub cursor : String

pub record QueueStats : Type 0 where
  pub queue : String
  pub states : JobState → ℕ
  pub total : ℕ

-- stats.States[row.State]++; stats.Total++
unfoldable pub count_row : QueueStats → JobRow → QueueStats
unfolding state_eq
count_row stats row = record stats {
  states = λ s. if state_eq s row.state then suc (stats.states s) else stats.states s;
  total = suc stats.total;
}

unfoldable pub count_rows : QueueStats → List JobRow → QueueStats
count_rows stats [] = stats
count_rows stats (row ∷ rows) = count_rows (count_row stats row) rows

unfoldable pub count_queue_stats : String → List JobRow → QueueStats
unfolding count_rows
count_queue_stats queue rows =
    count_rows (record { queue = queue; states = λ s. 0; total = 0 }) rows

pub record LeaderElectParams : Type 0 where
  pub name : String
  pub worker_id : String
  pub ttl : ℤ

pub record LeaderResignParams : Type 0 where
  pub name : String
  pub worker_id : String

pub record ScheduleCursorCreateParams : Type 0 where
  pub id : String
  pub initial_at : Time

pub record ScheduleCursorResult : Type 0 where
  pub at : Time
  pub created : Bool

pub record ScheduleCursorAdvanceParams : Type 0 where
  pub id : String
  pub expected : Time
  pub next : Time
