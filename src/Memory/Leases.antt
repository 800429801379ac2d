-- ===== src/Memory/Leases.antt =====
-- driver/memory/memory.go: leader leases, and the schedule cursors with their compare-and-swap.
pub mod Exclusion
use goncordia.Prelude.{
  String, ◌=s=◌, Bool, false, true, ◌&&◌, not, ltb, ◌==◌, if◌then◌else◌, none, some,
}
use goncordia.Prelude.Assoc.{lookup, insert, erase}
use goncordia.Time.{add}
use goncordia.Driver.{
  LeaderElectParams, LeaderResignParams, ScheduleCursorCreateParams, ScheduleCursorResult,
  ScheduleCursorAdvanceParams,
}
use goncordia.Memory.State.{Driver, MemoryLeader}

unfoldable pub lead : Driver → LeaderElectParams → Driver
lead d params = record d {
  leaders =
      insert params.name
        (record { worker_id = params.worker_id; expires_at = add d.now params.ttl }) d.leaders;
}

-- Another worker's lease that has not expired refuses the attempt.
unfoldable pub blocks : Driver → LeaderElectParams → MemoryLeader → Bool
blocks d params current =
    ltb d.now current.expires_at && not (current.worker_id =s= params.worker_id)

unfoldable pub leader_attempt_elect : Driver → LeaderElectParams → Driver × Bool
unfolding lead blocks
leader_attempt_elect d params = elim (lookup params.name d.leaders) [
  | none ↦ (lead d params, true)
  | some current ↦ if blocks d params current then (d, false) else (lead d params, true)
]

unfoldable pub leader_resign : Driver → LeaderResignParams → Driver
leader_resign d params = elim (lookup params.name d.leaders) [
  | none ↦ d
  | some current ↦
      if current.worker_id =s= params.worker_id
      then record d { leaders = erase params.name d.leaders }
      else d
]

unfoldable pub schedule_cursor_get_or_create :
    Driver → ScheduleCursorCreateParams → Driver × ScheduleCursorResult
schedule_cursor_get_or_create d params = elim (lookup params.id d.cursors) [
  | some at ↦ (d, record { at = at; created = false })
  | none ↦ (
    record d { cursors = insert params.id params.initial_at d.cursors },
    record { at = params.initial_at; created = true },
  )
]

unfoldable pub schedule_cursor_advance : Driver → ScheduleCursorAdvanceParams → Driver × Bool
schedule_cursor_advance d params = elim (lookup params.id d.cursors) [
  | none ↦ (d, false)
  | some current ↦
      if current == params.expected
      then (record d { cursors = insert params.id params.next d.cursors }, true)
      else (d, false)
]
