-- ===== src/Worker/Serial.antt =====
-- The jobs of a pipeline run one at a time in a pool where each waits for its turn.
use goncordia.Prelude.{ℕ, ◌≡◌, ◌≢◌, sym, inl, inr, ltb, Bool-cases, arith}
use goncordia.Worker.Pipeline.{running, Pipelines, arrives, starts, finishes, Orderly, idle, later}
use goncordia.Worker.Pipeline.Invariant.{is_present, IsSerial, idle-IsSerial, starts-IsSerial}
use goncordia.Worker.Pipeline.Arrivals.{arrives-IsSerial}
use goncordia.Worker.Pipeline.Endings.{finishes-IsSerial, none-before}

Orderly-IsSerial : {p : Pipelines} → Orderly p → IsSerial p
Orderly-IsSerial idle = idle-IsSerial
Orderly-IsSerial (later {p} r (arrives id)) = arrives-IsSerial p id (Orderly-IsSerial r)
Orderly-IsSerial (later {p} r (starts at is_queued open_gate)) =
    starts-IsSerial p at is_queued open_gate (Orderly-IsSerial r)
Orderly-IsSerial (later {p} r (finishes at is_running)) =
    finishes-IsSerial p at is_running (Orderly-IsSerial r)

running_unique :
    (p : Pipelines) (a b : ℕ)
    → Orderly p
    → p.status a ≡ running
    → p.status b ≡ running
    → p.owner a ≡ p.owner b
    → a ≡ b
unfolding is_present
running_unique p a b r here there same =
    let ok = Orderly-IsSerial r in
    elim (Bool-cases (ltb b a)) [
      | inr le ↦ none-before p b a there ok (ground (arith, here)) same (ground arith)
      | inl lt ↦ sym (none-before p a b here ok (ground (arith, there)) (sym same) (ground arith))
    ]

-- While a job of a pipeline is past its gate, no other claimed job of the pipeline is, in every state
-- that the pool comes to by arrivals, starts and ends of jobs in any order, where no job that waits at
-- the gate gives up before its turn.
pub running_alone :
    (p : Pipelines) (a b : ℕ)
    → Orderly p
    → p.owner a ≡ p.owner b
    → a ≢ b
    → p.status a ≡ running
    → p.status b ≢ running
running_alone p a b r same apart here there = apart (running_unique p a b r here there same)
