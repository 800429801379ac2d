-- ===== src/Worker/PoolScenarios.antt =====
-- The theorems on the claiming loop and the gates at concrete pools.
use goncordia.Prelude.{
  ℕ, ◌+◌, ◌<◌, ◌≤◌, ◌≡◌, ◌≢◌, ◌⊎◌, refl, pos, String, false, [], ◌∷◌, length, arith,
}
use goncordia.Prelude.Assoc.{lookup}
use goncordia.Memory.Interfaces.{executor}
use goncordia.Worker.Dispatch.{Claiming, state_at, slot_at, fetch_and_dispatch}
use goncordia.Worker.Capacity.{IsWithin, fetch_and_dispatch-fits}
use goncordia.Worker.Idle.{IsIdle, fetch-one}
use goncordia.Worker.Serving.{fetch_and_dispatch-serves}
use goncordia.Worker.Gates.{
  System, enter, write, take_permit, empty, Phase, begin, acquire, Reachable, start, next,
}
use goncordia.Worker.Gates.Counts.{holds_permit, total}
use goncordia.Worker.Exclusion.{permits-bounded}
use goncordia.Worker.Pipeline.{
  Pipelines, Status, put, pipeline_gate, no_pipelines, may_start, arrives, starts, Orderly, idle,
  later,
}
use goncordia.Worker.Serial.{running_alone}
use goncordia.Worker.Defaults.{no_policy}
use goncordia.Worker.Samples.{mail}

-- Two queues, of which the first has one slot of two.
abbrev claiming : Claiming
claiming = record {
  schedule = "mail" ∷ "sms" ∷ [];
  policies = ("mail", record no_policy { concurrency = pos 1 }) ∷ [];
  worker_id = "w1";
  lease = pos 60;
}

few : IsWithin claiming.policies []
unfolding state_at lookup
few queue limited = omega arith

fetch_and_dispatch-fits_example :
    IsWithin claiming.policies (fetch_and_dispatch executor claiming false 3 1 7 [] mail).0.states
    × (1 + length (fetch_and_dispatch executor claiming false 3 1 7 [] mail).0.started ≤ 3)
fetch_and_dispatch-fits_example =
    fetch_and_dispatch-fits executor claiming 3 1 7 [] mail false (fetch-one claiming) (omega arith)
      few

fetch_and_dispatch-serves_example :
    ((fetch_and_dispatch executor claiming false 3 1 7 [] mail).0.free ≡ 0)
    ⊎ ((j : ℕ)
        → j < 2
        → IsIdle claiming
            (fetch_and_dispatch executor claiming false 3 1 7 [] mail).0.states
            (fetch_and_dispatch executor claiming false 3 1 7 [] mail).1
            (slot_at j claiming.schedule))
fetch_and_dispatch-serves_example = fetch_and_dispatch-serves claiming 3 1 7 [] mail (omega arith)

-- One acquisition has the permit of a key with the limit 1, and another waits for it.
abbrev one_each : String → ℕ
one_each key = 1

abbrev entered : System
entered = ((enter "a" 1 empty).0, Phase.waiting "a" (enter "a" 1 empty).1 ∷ [])

abbrev taken : System
taken = (take_permit 0 (enter "a" 1 empty).0, Phase.holding "a" 0 ∷ [])

has_permit : Reachable one_each taken
unfolding enter write lookup
has_permit = next (next start (begin "a")) (acquire [] [] "a" 0 (omega arith))

permits-bounded_example : total (holds_permit "a") (Phase.holding "a" 0 ∷ []) ≤ 1
permits-bounded_example = permits-bounded one_each taken "a" has_permit

-- Two jobs of one pipeline, of which the first runs.
abbrev claimed_two : Pipelines
claimed_two = pipeline_gate "order/3" (pipeline_gate "order/3" no_pipelines)

abbrev first_runs : Pipelines
first_runs = record claimed_two { status = put 0 Status.running claimed_two.status }

in_order : Orderly first_runs
unfolding pipeline_gate may_start lookup
in_order = later (later (later idle (arrives "order/3")) (arrives "order/3")) (starts 0 refl refl)

two_jobs : ◌≢◌ {A = ℕ} 0 1
two_jobs e = absurd (omega (arith, e))

running_alone_example : first_runs.status 1 ≢ Status.running
unfolding pipeline_gate
running_alone_example = running_alone first_runs 0 1 in_order refl two_jobs refl
