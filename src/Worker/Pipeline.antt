-- ===== src/Worker/Pipeline.antt =====
-- worker.go: `pipelineGate`, which lets the claimed jobs of one pipeline run one after another. Each
-- job closes its own channel at its end, and waits for the channel of the job before it. A job is
-- known by the address of its channel.
pub mod Invariant
pub mod Arrivals
pub mod Endings
use goncordia.Prelude.{
  ℕ, zero, suc, ◌<◌, ◌≡◌, refl, String, ◌=s=◌, Bool, true, false, ◌==◌, if◌then◌else◌, Option, none,
  some, List, [],
}
use goncordia.Prelude.Assoc.{Assoc, lookup, insert, erase}

pub data Status : Type 0 where
  absent queued running ended : Status

-- `tails` is the pool's map; the functions say of a channel whether it is closed, and of its job the
-- pipeline, the channel it waits for, and how far it is.
pub record Pipelines : Type 0 where
  pub tails : Assoc ℕ
  pub closed : ℕ → Bool
  pub next : ℕ
  pub owner : ℕ → String
  pub ready : ℕ → Option ℕ
  pub status : ℕ → Status

abbrev pub put : {A : Type 0} → ℕ → A → (ℕ → A) → ℕ → A
put at value f other = if at == other then value else f other

abbrev pub no_pipelines : Pipelines
no_pipelines = record {
  tails = [];
  closed = λ at. false;
  next = 0;
  owner = λ at. "";
  ready = λ at. none;
  status = λ at. absent;
}

-- A claimed job takes the tail of its pipeline, which is not the empty one.
unfoldable pub pipeline_gate : String → Pipelines → Pipelines
pipeline_gate id p = record {
  tails = insert id p.next p.tails;
  closed = p.closed;
  next = suc p.next;
  owner = put p.next id p.owner;
  ready = put p.next (lookup id p.tails) p.ready;
  status = put p.next queued p.status;
}

unfoldable pub may_start : Pipelines → ℕ → Bool
may_start p at = elim (p.ready at) [ none ↦ true | some previous ↦ p.closed previous ]

abbrev pub is_tail : Option ℕ → ℕ → Bool
is_tail none at = false
is_tail (some tail) at = tail == at

-- The function that `pipelineGate` returns, when the job ends.
unfoldable pub pipeline_done : ℕ → Pipelines → Pipelines
pipeline_done at p = record p {
  tails = if is_tail (lookup (p.owner at) p.tails) at then erase (p.owner at) p.tails else p.tails;
  closed = put at true p.closed;
  status = put at ended p.status;
}

-- The steps of jobs that wait for their turn.
pub data PipelineStep : Pipelines → Pipelines → Type 0 where
  arrives : {p : Pipelines} (id : String) → PipelineStep p (pipeline_gate id p)
  starts :
      {p : Pipelines} (at : ℕ)
      → p.status at ≡ queued
      → may_start p at ≡ true
      → PipelineStep p (record p { status = put at running p.status })
  finishes : {p : Pipelines} (at : ℕ) → p.status at ≡ running → PipelineStep p (pipeline_done at p)

pub data Orderly : Pipelines → Type 0 where
  idle : Orderly no_pipelines
  later : {p q : Pipelines} → Orderly p → PipelineStep p q → Orderly q
