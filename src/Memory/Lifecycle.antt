-- ===== src/Memory/Lifecycle.antt =====
-- The lifecycle of a job: which transitions the driver's calls make, whatever their arguments.
use goncordia.Prelude.{◌<◌, ◌≡◌, refl, String, true, Option, some, arith, ◌||◌}
use goncordia.Driver.{
  JobRow, JobState, available, running, cancelled, scheduled, JobSetStateParams, FetchParams,
  JobRescueParams, state_eq,
}
use goncordia.Time.{Time}
use goncordia.Memory.Claims.{promote, is_candidate, claim, rescue_row, yield_row, settle_row}

-- One move of a job that is no reschedule. A running job may be put in any state by its owner.
infix 40 ◌⟶◌
pub data ◌⟶◌ : JobState → JobState → Type 0 where
  stay : {s : JobState} → s ⟶ s
  fall_due : scheduled ⟶ available
  start : available ⟶ running
  start_due : scheduled ⟶ running
  leave : {s : JobState} → running ⟶ s
  cancel_available : available ⟶ cancelled
  cancel_scheduled : scheduled ⟶ cancelled

pub ruleset moves = (stay, fall_due, start, start_due, leave, cancel_available, cancel_scheduled)

-- What a call keeps of a row, and how it may change the rest.
pub record RowStep (a b : JobRow) : Type 0 where
  pub id : a.id ≡ b.id
  pub queue : a.queue ≡ b.queue
  pub kind : a.kind ≡ b.kind
  pub args : a.args ≡ b.args
  pub unique_key : a.unique_key ≡ b.unique_key
  pub pipeline_id : a.pipeline_id ≡ b.pipeline_id
  pub created_at : a.created_at ≡ b.created_at
  pub move : a.state ⟶ b.state
  pub attempts : (a.state ≡ running → 0 < a.attempt_num) → b.state ≡ running → 0 < b.attempt_num

pub RowStep-refl : (a : JobRow) → RowStep a a
RowStep-refl a = record {
  id = refl;
  queue = refl;
  kind = refl;
  args = refl;
  unique_key = refl;
  pipeline_id = refl;
  created_at = refl;
  move = stay;
  attempts = λ h. h;
}

pub state_eq→eq : (s t : JobState) → state_eq s t ≡ true → s ≡ t
unfolding state_eq
state_eq→eq s t h = ground arith

pub RowStep-promote : (queue : String) (now : Time) (a : JobRow) → RowStep a (promote queue now a)
unfolding promote
RowStep-promote queue now a = grind (arith, moves, state_eq→eq)

pub RowStep-rescue_row : (params : JobRescueParams) (a : JobRow) → RowStep a (rescue_row params a)
unfolding rescue_row
RowStep-rescue_row params a = grind (arith, moves)

pub RowStep-claim-promote :
    (now : Time) (params : FetchParams) (a : JobRow)
    → is_candidate params.queue now (promote params.queue now a) ≡ true
    → RowStep a (claim now params (promote params.queue now a))
unfolding claim promote is_candidate
RowStep-claim-promote now params a h = grind (arith, moves, state_eq→eq)

pub RowStep-mark : (at : Option Time) (a : JobRow) → RowStep a (record a { started_at = at })
RowStep-mark at a = grind (arith, moves)

pub RowStep-renew : (at : Option Time) (a : JobRow) → RowStep a (record a { lease_expires_at = at })
RowStep-renew at a = grind (arith, moves)

pub RowStep-cancel :
    (at : Time) (a : JobRow)
    → (state_eq a.state available || state_eq a.state scheduled) ≡ true
    → RowStep a (record a { state = cancelled; finalized_at = some at })
unfolding state_eq
RowStep-cancel at a h = grind (arith, moves)

pub RowStep-yield_row : (a : JobRow) → a.state ≡ running → RowStep a (yield_row a)
unfolding yield_row
RowStep-yield_row a h = grind (arith, moves)

pub RowStep-settle_row :
    (now : Time) (params : JobSetStateParams) (a : JobRow)
    → a.state ≡ running
    → RowStep a (settle_row now params a)
unfolding settle_row
RowStep-settle_row now params a h = grind (arith, moves)
