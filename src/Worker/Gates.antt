-- ===== src/Worker/Gates.antt =====
-- worker.go: the semaphores by key of `acquireKeyConcurrency` and the gates of `acquireRateGate`, which
-- share one discipline: an entry is made for the first that wants it, counts those that refer to
-- it, and is deleted by the last. A job keeps the pointer to its entry, so that an entry has an
-- address here.
pub mod Counts
pub mod Soundness
use goncordia.Prelude.{
  ℕ, zero, suc, ◌+◌, ◌-◌, ◌<◌, ◌≤◌, ◌≡◌, String, ◌=s=◌, Bool, true, false, ◌&&◌, ◌==◌,
  if◌then◌else◌, Option, none, some, List, [], ◌∷◌, ◌++◌,
}
use goncordia.Prelude.Assoc.{Assoc, lookup, insert, erase}

-- `held` is the number of values in the channel.
pub record Gate : Type 0 where
  pub capacity : ℕ
  pub held : ℕ
  pub refs : ℕ

-- The map by key, and the entries by address; an address that is `next` or above is unused.
pub record Table : Type 0 where
  pub gates : Assoc ℕ
  pub heap : ℕ → Gate
  pub next : ℕ

abbrev pub no_gate : Gate
no_gate = record { capacity = 0; held = 0; refs = 0 }

unfoldable pub write : ℕ → Gate → (ℕ → Gate) → ℕ → Gate
write at gate heap other = if at == other then gate else heap other

-- The entry of a key, made with a capacity where there is none, with one more reference.
unfoldable pub enter : String → ℕ → Table → Table × ℕ
unfolding write
enter key capacity t = elim (lookup key t.gates) [
  | some at ↦
      let gate = t.heap at in
      (record t { heap = write at (record gate { refs = suc gate.refs }) t.heap }, at)
  | none ↦ (
    record {
      gates = insert key t.next t.gates;
      heap = write t.next (record { capacity = capacity; held = 0; refs = 1 }) t.heap;
      next = suc t.next;
    },
    t.next,
  )
]

-- A send on the channel, which has room.
unfoldable pub take_permit : ℕ → Table → Table
unfolding write
take_permit at t =
    let gate = t.heap at in
    record t { heap = write at (record gate { held = suc gate.held }) t.heap }

-- A receive from the channel.
unfoldable pub give_permit : ℕ → Table → Table
unfolding write
give_permit at t =
    let gate = t.heap at in
    record t { heap = write at (record gate { held = gate.held - 1 }) t.heap }

-- One reference less; the last one deletes the key.
unfoldable pub drop_ref : String → ℕ → Table → Table
unfolding write
drop_ref key at t =
    let gate = t.heap at in
    let heap = write at (record gate { refs = gate.refs - 1 }) t.heap in
    if gate.refs - 1 == 0
    then record t { gates = erase key t.gates; heap = heap }
    else record t { heap = heap }

-- How far one acquisition is: it waits for its entry's channel, has a permit, or has returned the permit
-- and still refers to the entry.
pub data Phase : Type 0 where
  waiting holding leaving : String → ℕ → Phase

abbrev pub System : Type 0
System = Table × List Phase

abbrev pub empty : Table
empty = record { gates = []; heap = λ at. no_gate; next = 0 }

module _ (limit : String → ℕ) where
  -- A step of one acquisition among the others; the entry of a key is made with the key's limit.
  pub data Step : System → System → Type 0 where
    begin :
        {t : Table} {others : List Phase} (key : String)
        → Step
            (t, others)
            ((enter key (limit key) t).0, waiting key (enter key (limit key) t).1 ∷ others)
    acquire :
        {t : Table} (before after : List Phase) (key : String) (at : ℕ)
        → (t.heap at).held < (t.heap at).capacity
        → Step
            (t, before ++ waiting key at ∷ after)
            (take_permit at t, before ++ holding key at ∷ after)
    give_up :
        {t : Table} (before after : List Phase) (key : String) (at : ℕ)
        → Step (t, before ++ waiting key at ∷ after) (drop_ref key at t, before ++ after)
    release :
        {t : Table} (before after : List Phase) (key : String) (at : ℕ)
        → Step
            (t, before ++ holding key at ∷ after)
            (give_permit at t, before ++ leaving key at ∷ after)
    leave :
        {t : Table} (before after : List Phase) (key : String) (at : ℕ)
        → Step (t, before ++ leaving key at ∷ after) (drop_ref key at t, before ++ after)

  -- What a pool that starts without entries comes to.
  pub data Reachable : System → Type 0 where
    start : Reachable (empty, [])
    next : {x y : System} → Reachable x → Step x y → Reachable y
