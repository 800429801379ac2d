-- ===== src/Worker/Pipeline/Endings.antt =====
-- The invariant of the pipelines when a running job ends.
use goncordia.Prelude.{
  ℕ, ◌<◌, ◌≤◌, ◌≡◌, refl, sym, ap, ◌∙◌, inl, inr, String, ◌=s=◌, eq_iff, true, false, ◌==◌,
  if◌then◌else◌, none, some, Bool-cases, arith,
}
use goncordia.Prelude.Assoc.{Assoc, lookup, erase, lookup-erase}
use goncordia.Worker.Pipeline.{queued, running, ended, Pipelines, put, is_tail, pipeline_done}
use goncordia.Worker.Pipeline.Invariant.{is_present, IsSerial}

-- The tails after the job `at` ended.
abbrev tails_done : Pipelines → ℕ → Assoc ℕ
tails_done p at =
    if is_tail (lookup (p.owner at) p.tails) at then erase (p.owner at) p.tails else p.tails

done-tail_open :
    (p : Pipelines) (at : ℕ)
    → IsSerial p
    → (i : String) (t : ℕ) → lookup i (tails_done p at) ≡ some t
    → (t < p.next) × (put at true p.closed t ≡ false) × (p.owner t ≡ i)
done-tail_open p at ok i t e = elim (Bool-cases (is_tail (lookup (p.owner at) p.tails) at)) [
  | inl last ↦
      let kept : (if p.owner at =s= i then none else lookup i p.tails) ≡ some t =
        sym (lookup-erase (p.owner at) i p.tails) ∙ sym (rw (last) refl) ∙ e in
      let known : lookup i p.tails ≡ some t = ground (arith, kept) in
      let (below, unfinished, own) = ok.tail_open i t known in
      elim (Bool-cases (at == t)) [
        | inr other ↦ (below, ground (arith, other, unfinished), own)
        | inl same ↦
            let one : at ≡ t = ground arith in
            absurd (ground (arith, kept, (eq_iff (p.owner at) i).1 (ap p.owner one ∙ own)))
      ]
  | inr earlier ↦
      let known : lookup i p.tails ≡ some t = sym (rw (earlier) refl) ∙ e in
      let (below, unfinished, own) = ok.tail_open i t known in
      elim (Bool-cases (at == t)) [
        | inr other ↦ (below, ground (arith, other, unfinished), own)
        | inl same ↦
            let one : at ≡ t = ground arith in
            let tail : lookup (p.owner at) p.tails ≡ some t =
              ap (λ k. lookup k p.tails) (ap p.owner one ∙ own) ∙ known in
            absurd (ground (arith, tail, earlier, same))
      ]
]

-- No job of the same pipeline is before a running one.
pub none-before :
    (p : Pipelines) (at a : ℕ)
    → p.status at ≡ running
    → IsSerial p
    → is_present (p.status a) ≡ true
    → p.owner a ≡ p.owner at
    → a ≤ at
    → a ≡ at
unfolding is_present
none-before p at a is_running ok here same le = elim (Bool-cases (a == at)) [
  | inl one ↦ ground arith
  | inr other ↦
      let (r, waiting, unfinished, covers, is_waiting) =
        ok.waits a at here (ground (arith, is_running)) same (ground (arith, le, other)) in
      cc (is_waiting, is_running)
]

done-tail_last :
    (p : Pipelines) (at : ℕ)
    → p.status at ≡ running
    → IsSerial p
    → (a : ℕ) → is_present (put at ended p.status a) ≡ true
    → (t : ℕ) × (lookup (p.owner a) (tails_done p at) ≡ some t) × (a ≤ t)
unfolding is_present
done-tail_last p at is_running ok a here =
    let here' : is_present (p.status a) ≡ true = ground (arith, here) in
    let apart : (at == a) ≡ false = ground (arith, here) in
    let (t, known, last) = ok.tail_last a here' in
    elim (Bool-cases (is_tail (lookup (p.owner at) p.tails) at)) [
      | inr earlier ↦ (t, rw (earlier) known, last)
      | inl tail ↦ elim (Bool-cases (p.owner at =s= p.owner a)) [
        | inr other ↦ (
          t,
          rw (tail) (lookup-erase (p.owner at) (p.owner a) p.tails ∙ ground (arith, other, known)),
          last,
        )
        | inl same ↦
            let own : p.owner a ≡ p.owner at = sym ((eq_iff (p.owner at) (p.owner a)).0 same) in
            let shared : lookup (p.owner at) p.tails ≡ some t =
              ap (λ k. lookup k p.tails) (sym own) ∙ known in
            let le : a ≤ at = ground (arith, shared, tail, last) in
            let one = none-before p at a is_running ok here' own le in
            absurd (ground (arith, one, apart))
      ]
    ]

done-waits :
    (p : Pipelines) (at : ℕ)
    → p.status at ≡ running
    → IsSerial p
    → (a b : ℕ) → is_present (put at ended p.status a) ≡ true
    → is_present (put at ended p.status b) ≡ true
    → p.owner a ≡ p.owner b
    → a < b
    → (r : ℕ) × (p.ready b ≡ some r)
      × (put at true p.closed r ≡ false)
      × (a ≤ r)
      × (put at ended p.status b ≡ queued)
unfolding is_present
done-waits p at is_running ok a b here there same before =
    let here' : is_present (p.status a) ≡ true = ground (arith, here) in
    let there' : is_present (p.status b) ≡ true = ground (arith, there) in
    let apart : (at == a) ≡ false = ground (arith, here) in
    let (r, waiting, unfinished, covers, is_waiting) = ok.waits a b here' there' same before in
    elim (Bool-cases (at == r)) [
      | inr other ↦
          (r, waiting, ground (arith, other, unfinished), covers, ground (arith, there, is_waiting))
      | inl ended_one ↦
          let one : r ≡ at = ground arith in
          let own : p.owner a ≡ p.owner at =
            same ∙ sym (ok.behind b r there' waiting).1 ∙ ap p.owner one in
          let le : a ≤ at = omega arith in
          let first = none-before p at a is_running ok here' own le in
          absurd (ground (arith, first, apart))
    ]

pub finishes-IsSerial :
    (p : Pipelines) (at : ℕ) → p.status at ≡ running → IsSerial p → IsSerial (pipeline_done at p)
unfolding pipeline_done is_present
finishes-IsSerial p at is_running ok = record {
  tail_open = λ i t e. done-tail_open p at ok i t e;
  tail_last = λ a here. done-tail_last p at is_running ok a here;
  allocated = λ a here. ok.allocated a (ground arith);
  behind = λ b r here. ok.behind b r (ground arith);
  unused = λ a above. ground (arith, ok.unused a above, ok.allocated at);
  waits = λ a b here there same before. done-waits p at is_running ok a b here there same before;
}
