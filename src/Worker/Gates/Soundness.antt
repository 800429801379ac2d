-- ===== src/Worker/Gates/Soundness.antt =====
-- The invariant of the entries, which every step keeps: the counts of an entry are those of the
-- acquisitions, and an acquisition's entry is the one of its key.
use goncordia.Prelude.{
  ℕ, ◌-◌, ◌<◌, ◌≤◌, ◌≡◌, refl, sym, ap, ◌∙◌, inl, inr, String, ◌=s=◌, eq_iff, ◌==◌, if◌then◌else◌,
  none, some, List, [], ◌∷◌, ◌++◌, All, All-imp, All-and, Bool-cases, Option-cases, arith,
}
use goncordia.Prelude.Assoc.{lookup, insert, lookup-insert, lookup-erase}
use goncordia.Worker.Gates.{
  Table, no_gate, write, enter, take_permit, give_permit, drop_ref, Phase, waiting, holding,
  leaving, empty,
}
use goncordia.Worker.Gates.Counts.{
  refers, holds, total, total-append, All-front, All-back, IsCurrent, insert-IsCurrent, IsElsewhere,
  unreferred, erase-IsCurrent,
}

module _ (limit : String → ℕ) where
  -- The invariant.
  pub record IsSound (t : Table) (ps : List Phase) : Type 0 where
    pub refs_count : (at : ℕ) → (t.heap at).refs ≡ total (refers at) ps
    pub held_count : (at : ℕ) → (t.heap at).held ≡ total (holds at) ps
    pub within : (at : ℕ) → (t.heap at).held ≤ (t.heap at).capacity
    pub current : All (IsCurrent t.gates) ps
    pub used : (key : String) (at : ℕ) → lookup key t.gates ≡ some at → at < t.next
    pub capacity :
        (key : String) (at : ℕ) → lookup key t.gates ≡ some at → (t.heap at).capacity ≡ limit key
    pub fresh : (at : ℕ) → t.next ≤ at → t.heap at ≡ no_gate

  pub start-IsSound : IsSound empty []
  unfolding total lookup
  start-IsSound = record {
    refs_count = λ at. refl;
    held_count = λ at. refl;
    within = λ at. omega arith;
    current = tt;
    used = λ key at e. cc;
    capacity = λ key at e. cc;
    fresh = λ at above. refl;
  }

  -- The order of the phases does not matter.
  pub front-IsSound :
      {t : Table} (before after : List Phase) {p : Phase}
      → IsSound t (before ++ p ∷ after)
      → IsSound t (p ∷ before ++ after)
  unfolding total
  front-IsSound {t} before after {p} ok = record {
    refs_count = λ at. ok.refs_count at ∙ total-append (refers at) before p after;
    held_count = λ at. ok.held_count at ∙ total-append (holds at) before p after;
    within = ok.within;
    current = All-front (IsCurrent t.gates) before after ok.current;
    used = ok.used;
    capacity = ok.capacity;
    fresh = ok.fresh;
  }

  pub back-IsSound :
      {t : Table} (before after : List Phase) {p : Phase}
      → IsSound t (p ∷ before ++ after)
      → IsSound t (before ++ p ∷ after)
  unfolding total
  back-IsSound {t} before after {p} ok = record {
    refs_count = λ at. ok.refs_count at ∙ sym (total-append (refers at) before p after);
    held_count = λ at. ok.held_count at ∙ sym (total-append (holds at) before p after);
    within = ok.within;
    current = All-back (IsCurrent t.gates) before after ok.current;
    used = ok.used;
    capacity = ok.capacity;
    fresh = ok.fresh;
  }

  pub take-IsSound :
      (t : Table) (ps : List Phase) (key : String) (at : ℕ)
      → (t.heap at).held < (t.heap at).capacity
      → IsSound t (waiting key at ∷ ps)
      → IsSound (take_permit at t) (holding key at ∷ ps)
  unfolding take_permit write refers holds total
  take-IsSound t ps key at room ok = record {
    refs_count = λ other. ground (arith, ok.refs_count other);
    held_count = λ other. ground (arith, ok.held_count other);
    within = λ other. ground (arith, ok.within other);
    current = (ok.current.0, ok.current.1);
    used = ok.used;
    capacity = λ k a e. ground (arith, ok.capacity k a e);
    fresh = λ a above. ground (arith, ok.fresh a above, ok.used key at ok.current.0);
  }

  pub give-IsSound :
      (t : Table) (ps : List Phase) (key : String) (at : ℕ)
      → IsSound t (holding key at ∷ ps)
      → IsSound (give_permit at t) (leaving key at ∷ ps)
  unfolding give_permit write refers holds total
  give-IsSound t ps key at ok = record {
    refs_count = λ other. ground (arith, ok.refs_count other);
    held_count = λ other. ground (arith, ok.held_count other);
    within = λ other. ground (arith, ok.within other);
    current = (ok.current.0, ok.current.1);
    used = ok.used;
    capacity = λ k a e. ground (arith, ok.capacity k a e);
    fresh = λ a above. ground (arith, ok.fresh a above, ok.used key at ok.current.0);
  }

  made-capacity :
      (t : Table) (ps : List Phase) (key : String)
      → lookup key t.gates ≡ none
      → IsSound t ps
      → (k : String) (a : ℕ) → lookup k (insert key t.next t.gates) ≡ some a
      → (write t.next (record { capacity = limit key; held = 0; refs = 1 }) t.heap a).capacity
        ≡ limit k
  unfolding write
  made-capacity t ps key new ok k a e = elim (Bool-cases (key =s= k)) [
    | inl same ↦
        ground (arith, lookup-insert key k t.next t.gates, same, ap limit ((eq_iff key k).0 same))
    | inr other ↦
        let old : lookup k t.gates ≡ some a =
          ground (arith, lookup-insert key k t.next t.gates, other) in
        ground (arith, ok.used k a old, ok.capacity k a old)
  ]

  pub enter-IsSound :
      (t : Table) (ps : List Phase) (key : String)
      → IsSound t ps
      → IsSound (enter key (limit key) t).0 (waiting key (enter key (limit key) t).1 ∷ ps)
  unfolding enter write refers holds total
  enter-IsSound t ps key ok = elim (Option-cases (lookup key t.gates)) [
    | inr (at, known) ↦
        rw (known, enter)
          (record {
            refs_count = λ other. ground (arith, ok.refs_count other);
            held_count = λ other. ground (arith, ok.held_count other);
            within = λ other. ground (arith, ok.within other);
            current = (known, ok.current);
            used = ok.used;
            capacity = λ k a e. ground (arith, ok.capacity k a e);
            fresh = λ a above. ground (arith, ok.fresh a above, ok.used key at known);
          })
    | inl new ↦
        rw (new, enter)
          (record {
            refs_count = λ other. ground (arith, ok.refs_count other, ok.fresh other);
            held_count = λ other. ground (arith, ok.held_count other, ok.fresh other);
            within = λ other. ground (arith, ok.within other);
            current = (
              lookup-insert key key t.next t.gates ∙ ground (arith, eq_iff key key),
              All-imp (insert-IsCurrent t key new) ps ok.current,
            );
            used = λ k a e. ground (arith, lookup-insert key k t.next t.gates, ok.used k a);
            capacity = λ k a e. made-capacity t ps key new ok k a e;
            fresh = λ a above. ground (arith, ok.fresh a (omega arith));
          })
  ]

  pub drop-IsSound :
      (t : Table) (p : Phase) (ps : List Phase) (key : String) (at : ℕ)
      → ((other : ℕ) → refers other p ≡ (if at == other then 1 else 0))
      → ((other : ℕ) → holds other p ≡ 0)
      → lookup key t.gates ≡ some at
      → IsSound t (p ∷ ps)
      → IsSound (drop_ref key at t) ps
  unfolding drop_ref write total
  drop-IsSound t p ps key at one none_held known ok =
      elim (Bool-cases ((t.heap at).refs - 1 == 0)) [
        | inr others ↦
            rw (others, drop_ref)
              (record {
                refs_count = λ other. ground (arith, ok.refs_count other, one other);
                held_count = λ other. ground (arith, ok.held_count other, none_held other);
                within = λ other. ground (arith, ok.within other);
                current = ok.current.1;
                used = ok.used;
                capacity = λ k a e. ground (arith, ok.capacity k a e);
                fresh = λ a above. ground (arith, ok.fresh a above, ok.used key at known);
              })
        | inl last ↦
            rw (last, drop_ref)
              (record {
                refs_count = λ other. ground (arith, ok.refs_count other, one other);
                held_count = λ other. ground (arith, ok.held_count other, none_held other);
                within = λ other. ground (arith, ok.within other);
                current = All-imp (erase-IsCurrent t key at known) ps (
                    All-and (IsElsewhere at) (IsCurrent t.gates) ps
                      (unreferred at ps (ground (arith, ok.refs_count at, one at))) ok.current.1);
                used = λ k a e. ok.used k a (ground (arith, lookup-erase key k t.gates));
                capacity = λ k a e.
                    ground (arith, ok.capacity k a (ground (arith, lookup-erase key k t.gates)));
                fresh = λ a above. ground (arith, ok.fresh a above, ok.used key at known);
              })
      ]
