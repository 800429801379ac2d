-- ===== src/Worker/Pipeline/Arrivals.antt =====
-- The invariant of the pipelines when a job arrives.
use goncordia.Prelude.{
  ℕ, suc, ◌<◌, ◌≤◌, ◌≡◌, sym, ap, subst, ◌∙◌, inl, inr, String, ◌=s=◌, eq_iff, true, false, ◌==◌,
  some, Bool-cases, arith,
}
use goncordia.Prelude.Assoc.{lookup, insert, lookup-insert}
use goncordia.Worker.Pipeline.{queued, Pipelines, put, pipeline_gate}
use goncordia.Worker.Pipeline.Invariant.{is_present, IsSerial}

arrives-tail_open :
    (p : Pipelines) (id : String)
    → IsSerial p
    → (i : String) (t : ℕ) → lookup i (insert id p.next p.tails) ≡ some t
    → (t < suc p.next) × (p.closed t ≡ false) × (put p.next id p.owner t ≡ i)
arrives-tail_open p id ok i t e = elim (Bool-cases (id =s= i)) [
  | inl same ↦
      let one : p.next ≡ t = ground (arith, lookup-insert id i p.next p.tails) in
      let own : put p.next id p.owner p.next ≡ id = ground arith in
      subst (λ n. (n < suc p.next) × (p.closed n ≡ false) × (put p.next id p.owner n ≡ i)) one
        (omega arith, ok.unused p.next (omega arith), own ∙ (eq_iff id i).0 same)
  | inr other ↦
      let old : lookup i p.tails ≡ some t = ground (arith, lookup-insert id i p.next p.tails) in
      let (below, unfinished, own) = ok.tail_open i t old in
      (omega arith, unfinished, ground (arith, below, own))
]

arrives-tail_last :
    (p : Pipelines) (id : String)
    → IsSerial p
    → (a : ℕ) → is_present (put p.next queued p.status a) ≡ true
    → (t : ℕ) × (lookup (put p.next id p.owner a) (insert id p.next p.tails) ≡ some t) × (a ≤ t)
unfolding is_present
arrives-tail_last p id ok a here = elim (Bool-cases (p.next == a)) [
  | inl new ↦
      let own : put p.next id p.owner a ≡ id = ground arith in
      (
        p.next,
        ap (λ k. lookup k (insert id p.next p.tails)) own
            ∙ lookup-insert id id p.next p.tails
            ∙ ground (arith, eq_iff id id),
        ground arith,
      )
  | inr old ↦
      let own : put p.next id p.owner a ≡ p.owner a = ground arith in
      let (t, known, last) = ok.tail_last a (ground (arith, old, here)) in
      let below = (ok.tail_open (p.owner a) t known).0 in
      elim (Bool-cases (id =s= p.owner a)) [
        | inl same ↦ (
          p.next,
          ap (λ k. lookup k (insert id p.next p.tails)) own
              ∙ ground (arith, lookup-insert id (p.owner a) p.next p.tails, same),
          omega arith,
        )
        | inr other ↦ (
          t,
          ap (λ k. lookup k (insert id p.next p.tails)) own
              ∙ ground (arith, lookup-insert id (p.owner a) p.next p.tails, other, known),
          last,
        )
      ]
]

arrives-behind :
    (p : Pipelines) (id : String)
    → IsSerial p
    → (b r : ℕ) → is_present (put p.next queued p.status b) ≡ true
    → put p.next (lookup id p.tails) p.ready b ≡ some r
    → (r < suc p.next) × (put p.next id p.owner r ≡ put p.next id p.owner b)
unfolding is_present
arrives-behind p id ok b r here e = elim (Bool-cases (p.next == b)) [
  | inl new ↦
      let (below, _, own) = ok.tail_open id r (ground (arith, new, e)) in
      (omega arith, ground (arith, new, below, own))
  | inr old ↦
      let (below, own) = ok.behind b r (ground (arith, old, here)) (ground (arith, old, e)) in
      (omega arith, ground (arith, old, below, own))
]

arrives-waits :
    (p : Pipelines) (id : String)
    → IsSerial p
    → (a b : ℕ) → is_present (put p.next queued p.status a) ≡ true
    → is_present (put p.next queued p.status b) ≡ true
    → put p.next id p.owner a ≡ put p.next id p.owner b
    → a < b
    → (r : ℕ) × (put p.next (lookup id p.tails) p.ready b ≡ some r)
      × (p.closed r ≡ false)
      × (a ≤ r)
      × (put p.next queued p.status b ≡ queued)
unfolding is_present
arrives-waits p id ok a b here there same before = elim (Bool-cases (p.next == b)) [
  | inl new ↦
      let earlier : is_present (p.status a) ≡ true = ground (arith, new, here) in
      let own : p.owner a ≡ id = ground (arith, new, same) in
      let (t, known, last) = ok.tail_last a earlier in
      let (_, unfinished, _) = ok.tail_open (p.owner a) t known in
      let tail : lookup id p.tails ≡ some t = ap (λ k. lookup k p.tails) (sym own) ∙ known in
      (t, ground (arith, new, tail), unfinished, last, ground (arith, new))
  | inr old ↦
      let there' : is_present (p.status b) ≡ true = ground (arith, old, there) in
      let below = ok.allocated b there' in
      let (r, waiting, unfinished, covers, is_waiting) =
        ok.waits a b (ground (arith, below, here)) there' (ground (arith, old, below, same))
          before in
      (r, ground (arith, old, waiting), unfinished, covers, ground (arith, old, is_waiting))
]

pub arrives-IsSerial : (p : Pipelines) (id : String) → IsSerial p → IsSerial (pipeline_gate id p)
unfolding pipeline_gate is_present
arrives-IsSerial p id ok = record {
  tail_open = λ i t e. arrives-tail_open p id ok i t e;
  tail_last = λ a here. arrives-tail_last p id ok a here;
  allocated = λ a here. ground (arith, ok.allocated a);
  behind = λ b r here e. arrives-behind p id ok b r here e;
  unused = λ a above. ok.unused a (omega arith);
  waits = λ a b here there same before. arrives-waits p id ok a b here there same before;
}
