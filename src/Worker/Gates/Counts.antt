-- ===== src/Worker/Gates/Counts.antt =====
-- Counting the acquisitions that refer to an entry, and those that hold a permit; and when an entry is
-- its key's.
use goncordia.Prelude.{
  ℕ, ◌+◌, ◌<◌, ◌≡◌, refl, inl, inr, String, ◌=s=◌, eq_iff, false, ◌==◌, if◌then◌else◌, none, some,
  List, [], ◌∷◌, ◌++◌, All, Bool-cases, arith,
}
use goncordia.Prelude.Assoc.{Assoc, lookup, insert, erase, lookup-insert, lookup-erase}
use goncordia.Worker.Gates.{Table, Phase, waiting, holding, leaving}

-- Whether a phase refers to an entry.
unfoldable pub refers : ℕ → Phase → ℕ
refers at (waiting _ own) = if own == at then 1 else 0
refers at (holding _ own) = if own == at then 1 else 0
refers at (leaving _ own) = if own == at then 1 else 0

unfoldable pub holds : ℕ → Phase → ℕ
holds at (holding _ own) = if own == at then 1 else 0
holds at _ = 0

-- The permits of a key that are out.
unfoldable pub holds_permit : String → Phase → ℕ
holds_permit key (holding own _) = if own =s= key then 1 else 0
holds_permit key _ = 0

unfoldable pub total : (Phase → ℕ) → List Phase → ℕ
total f [] = 0
total f (p ∷ ps) = f p + total f ps

pub total-append :
    (f : Phase → ℕ) (ps : List Phase) (p : Phase) (qs : List Phase)
    → total f (ps ++ p ∷ qs) ≡ f p + total f (ps ++ qs)
unfolding total
total-append f [] p qs = refl
total-append f (q ∷ ps) p qs = omega (arith, total-append f ps p qs)

pub All-front :
    (P : Phase → Type 0) (before after : List Phase) {p : Phase}
    → All P (before ++ p ∷ after)
    → P p × All P (before ++ after)
All-front P [] after h = h
All-front P (q ∷ before) after h =
    let rest = All-front P before after h.1 in (rest.0, (h.0, rest.1))

pub All-back :
    (P : Phase → Type 0) (before after : List Phase) {p : Phase}
    → P p × All P (before ++ after)
    → All P (before ++ p ∷ after)
All-back P [] after h = h
All-back P (q ∷ before) after h = (h.1.0, All-back P before after (h.0, h.1.1))

abbrev pub key_of : Phase → String
key_of (waiting key _) = key
key_of (holding key _) = key
key_of (leaving key _) = key

abbrev pub entry_of : Phase → ℕ
entry_of (waiting _ at) = at
entry_of (holding _ at) = at
entry_of (leaving _ at) = at

-- The phase's entry is its key's.
abbrev pub IsCurrent : Assoc ℕ → Phase → Type 0
IsCurrent gates p = lookup (key_of p) gates ≡ some (entry_of p)

abbrev IsUsed : Table → Phase → Type 0
IsUsed t p = entry_of p < t.next

pub insert-IsCurrent :
    (t : Table) (key : String)
    → lookup key t.gates ≡ none
    → (p : Phase) → IsCurrent t.gates p
    → IsCurrent (insert key t.next t.gates) p
insert-IsCurrent t key new p here = elim (Bool-cases (key =s= key_of p)) [
  | inr other ↦ ground (arith, lookup-insert key (key_of p) t.next t.gates, other)
  | inl same ↦ cc (here, new, (eq_iff key (key_of p)).0 same)
]

-- The phase refers to another entry.
abbrev pub IsElsewhere : ℕ → Phase → Type 0
IsElsewhere at p = (entry_of p == at) ≡ false

pub unreferred : (at : ℕ) (ps : List Phase) → total (refers at) ps ≡ 0 → All (IsElsewhere at) ps
unfolding total refers
unreferred at [] e = tt
unreferred at (waiting key own ∷ ps) e = (ground arith, unreferred at ps (omega arith))
unreferred at (holding key own ∷ ps) e = (ground arith, unreferred at ps (omega arith))
unreferred at (leaving key own ∷ ps) e = (ground arith, unreferred at ps (omega arith))

pub erase-IsCurrent :
    (t : Table) (key : String) (at : ℕ)
    → lookup key t.gates ≡ some at
    → (p : Phase) → IsElsewhere at p × IsCurrent t.gates p
    → IsCurrent (erase key t.gates) p
erase-IsCurrent t key at known p (elsewhere, here) = elim (Bool-cases (key =s= key_of p)) [
  | inr other ↦ ground (arith, lookup-erase key (key_of p) t.gates, other)
  | inl same ↦
      let one : some at ≡ some (entry_of p) = cc (here, known, (eq_iff key (key_of p)).0 same) in
      absurd (ground (arith, one, elsewhere))
]
