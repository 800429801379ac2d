-- ===== src/Worker/Pipeline/Invariant.antt =====
-- The invariant of the jobs at the gates of their pipelines: a job waits for one that is not before any
-- other of its pipeline.
use goncordia.Prelude.{
  ℕ, ◌<◌, ◌≤◌, ◌≡◌, refl, ap, ◌∙◌, inl, inr, String, Bool, true, false, ◌==◌, some, Bool-cases,
  arith,
}
use goncordia.Prelude.Assoc.{lookup}
use goncordia.Worker.Pipeline.{Status, queued, running, Pipelines, put, no_pipelines, may_start}

unfoldable pub is_present : Status → Bool
is_present queued = true
is_present running = true
is_present _ = false

pub record IsSerial (p : Pipelines) : Type 0 where
  pub tail_open :
      (id : String) (t : ℕ)
      → lookup id p.tails ≡ some t
      → (t < p.next) × (p.closed t ≡ false) × (p.owner t ≡ id)
  pub tail_last :
      (a : ℕ)
      → is_present (p.status a) ≡ true
      → (t : ℕ) × (lookup (p.owner a) p.tails ≡ some t) × (a ≤ t)
  pub allocated : (a : ℕ) → is_present (p.status a) ≡ true → a < p.next
  pub behind :
      (b r : ℕ)
      → is_present (p.status b) ≡ true
      → p.ready b ≡ some r
      → (r < p.next) × (p.owner r ≡ p.owner b)
  pub unused : (a : ℕ) → p.next ≤ a → p.closed a ≡ false
  pub waits :
      (a b : ℕ)
      → is_present (p.status a) ≡ true
      → is_present (p.status b) ≡ true
      → p.owner a ≡ p.owner b
      → a < b
      → (r : ℕ) × (p.ready b ≡ some r) × (p.closed r ≡ false) × (a ≤ r) × (p.status b ≡ queued)

pub idle-IsSerial : IsSerial no_pipelines
unfolding lookup is_present
idle-IsSerial = record {
  tail_open = λ id t e. cc;
  tail_last = λ a e. cc;
  allocated = λ a e. cc;
  behind = λ b r e. cc;
  unused = λ a above. refl;
  waits = λ a b e. cc;
}

pub starts-IsSerial :
    (p : Pipelines) (at : ℕ)
    → p.status at ≡ queued
    → may_start p at ≡ true
    → IsSerial p
    → IsSerial (record p { status = put at running p.status })
unfolding may_start is_present
starts-IsSerial p at is_queued open_gate ok = record {
  tail_open = ok.tail_open;
  tail_last = λ a here. ok.tail_last a (ground (arith, is_queued));
  allocated = λ a here. ok.allocated a (ground (arith, is_queued));
  behind = λ b r here. ok.behind b r (ground (arith, is_queued));
  unused = ok.unused;
  waits = λ a b here there same before.
      let (r, waiting, unfinished, covers, is_waiting) =
        ok.waits a b (ground (arith, is_queued)) (ground (arith, is_queued)) same before in
      elim (Bool-cases (at == b)) [
        | inr other ↦ (r, waiting, unfinished, covers, ground (arith, other, is_waiting))
        | inl chosen ↦
            let one : at ≡ b = ground arith in
            let waiting_too : p.ready at ≡ some r = ap p.ready one ∙ waiting in
            absurd (ground (arith, waiting_too, unfinished, open_gate))
      ];
}
