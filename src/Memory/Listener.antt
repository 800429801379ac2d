-- ===== src/Memory/Listener.antt =====
-- driver/memory/memory.go: the subscriptions of the memory driver's `Listener`.
use goncordia.Prelude.{
  ℕ, ◌≡◌, refl, sym, ap, ◌∙◌, ◌==◌, inl, inr, String, ◌=s=◌, eq_iff, false, Bool-cases,
  if◌then◌else◌, Option, none, some, List, [], ◌∷◌, ◌++◌, map, All, arith,
}
use goncordia.Prelude.Assoc.{Assoc, lookup, insert, erase, lookup-insert, lookup-erase}
use goncordia.Memory.State.{Driver, Channel}

-- A listener's own channel for each queue, and the channels that it has closed.
pub record Listener : Type 0 where
  pub subs : Assoc ℕ
  pub closed : List ℕ

abbrev pub no_subs : Listener
no_subs = record { subs = []; closed = [] }

abbrev pub or_empty : Option (List Channel) → List Channel
or_empty none = []
or_empty (some channels) = channels

abbrev pub channels_of : Driver → String → List Channel
channels_of d queue = or_empty (lookup queue d.notify)

abbrev pub new_channel : ℕ → Channel
new_channel id = record { id = id; buffered = 0 }

-- `id` is the channel that is made.
unfoldable pub listen : ℕ → String → Driver × Listener → Driver × Listener
listen id queue (d, l) = (
  record d { notify = insert queue (channels_of d queue ++ (new_channel id ∷ [])) d.notify },
  record l { subs = insert queue id l.subs },
)

unfoldable pub without : ℕ → List Channel → List Channel
without owned [] = []
without owned (ch ∷ channels) =
    let rest = without owned channels in if ch.id == owned then channels else ch ∷ rest

abbrev pub set_channels : String → List Channel → Assoc (List Channel) → Assoc (List Channel)
set_channels queue [] notify = erase queue notify
set_channels queue (ch ∷ channels) notify = insert queue (ch ∷ channels) notify

unfoldable pub remove : String → Driver × Listener → Driver × Listener
unfolding without
remove queue (d, l) = elim (lookup queue l.subs) [
  | none ↦ (d, l)
  | some owned ↦ (
    record d { notify = set_channels queue (without owned (channels_of d queue)) d.notify },
    record l { subs = erase queue l.subs; closed = owned ∷ l.closed },
  )
]

unfoldable pub unlisten : String → Driver × Listener → Driver × Listener
unfolding remove
unlisten queue state = remove queue state

unfoldable pub remove_all : List String → Driver × Listener → Driver × Listener
unfolding remove
remove_all [] state = state
remove_all (queue ∷ queues) state = remove_all queues (remove queue state)

unfoldable pub close_listener : Driver × Listener → Driver × Listener
unfolding remove_all
close_listener (d, l) = remove_all (map (λ e. e.0) l.subs) (d, l)

without-append :
    (id : ℕ) (channels : List Channel)
    → All (λ ch. (ch.id == id) ≡ false) channels
    → without id (channels ++ (new_channel id ∷ [])) ≡ channels
unfolding without
without-append id [] h = ground arith
without-append id (ch ∷ channels) h =
    rw (h.0) (ap (λ rest. ch ∷ rest) (without-append id channels h.1))

set_channels-lookup :
    (queue other : String) (channels : List Channel) (notify : Assoc (List Channel))
    → or_empty (lookup other (set_channels queue channels notify))
      ≡ (if queue =s= other then channels else or_empty (lookup other notify))
set_channels-lookup queue other [] notify = ground (arith, lookup-erase queue other notify)
set_channels-lookup queue other (ch ∷ channels) notify =
    ground (arith, lookup-insert queue other (ch ∷ channels) notify)

listened :
    (id : ℕ) (queue : String) (d : Driver) (l : Listener)
    → channels_of (listen id queue (d, l)).0 queue ≡ channels_of d queue ++ (new_channel id ∷ [])
unfolding listen
listened id queue d l =
    ap or_empty (lookup-insert queue queue (channels_of d queue ++ (new_channel id ∷ [])) d.notify)
    ∙ ground (arith, eq_iff queue queue)

remove-owned :
    (queue : String) (owned : ℕ) (d : Driver) (l : Listener)
    → lookup queue l.subs ≡ some owned
    → remove queue (d, l) ≡ (
      record d { notify = set_channels queue (without owned (channels_of d queue)) d.notify },
      record l { subs = erase queue l.subs; closed = owned ∷ l.closed },
    )
unfolding remove
remove-owned queue owned d l own = rw (own, remove) refl

unlisten-made :
    (id : ℕ) (queue : String) (d : Driver) (l : Listener)
    → unlisten queue (listen id queue (d, l)) ≡ (
      record d {
        notify =
            set_channels queue
              (without id (channels_of (listen id queue (d, l)).0 queue))
              (insert queue (channels_of d queue ++ (new_channel id ∷ [])) d.notify);
      },
      record l { subs = erase queue (insert queue id l.subs); closed = id ∷ l.closed },
    )
unfolding unlisten listen
unlisten-made id queue d l =
    remove-owned queue id (listen id queue (d, l)).0 (listen id queue (d, l)).1
      (lookup-insert queue queue id l.subs ∙ ground (arith, eq_iff queue queue))

-- What is put back under a key is read back, and elsewhere nothing has changed.
put_back :
    (queue other : String) (back now : List Channel) (notify : Assoc (List Channel))
    → back ≡ or_empty (lookup queue notify)
    → or_empty (lookup other (set_channels queue back (insert queue now notify)))
      ≡ or_empty (lookup other notify)
put_back queue other back now notify same =
    let found = set_channels-lookup queue other back (insert queue now notify) in
    let apart = lookup-insert queue other now notify in
    elim (Bool-cases (queue =s= other)) [
      | inl here ↦
          found
          ∙ rw (here) same
          ∙ ap (λ k. or_empty (lookup k notify)) ((eq_iff queue other).0 here)
      | inr there ↦
          let unchanged : lookup other (insert queue now notify) ≡ lookup other notify =
            apart ∙ rw (there) refl in
          found ∙ rw (there) (ap or_empty unchanged)
    ]

subs_back :
    (queue other : String) (id : ℕ) (subs : Assoc ℕ)
    → lookup queue subs ≡ none
    → lookup other (erase queue (insert queue id subs)) ≡ lookup other subs
subs_back queue other id subs none_yet =
    let found = lookup-erase queue other (insert queue id subs) in
    let apart = lookup-insert queue other id subs in
    elim (Bool-cases (queue =s= other)) [
      | inl here ↦
          found ∙ rw (here) (sym none_yet) ∙ ap (λ k. lookup k subs) ((eq_iff queue other).0 here)
      | inr there ↦ found ∙ rw (there) (apart ∙ rw (there) refl)
    ]

-- Where a listener has no subscription on the queue and the new channel is none of the queue's, a
-- subscription that is ended again leaves every queue the channels that it had, in their order, and
-- with what they hold, and the listener the subscriptions that it had.
pub unlisten-listen :
    (id : ℕ) (queue other : String) (d : Driver) (l : Listener)
    → All (λ ch. (ch.id == id) ≡ false) (channels_of d queue)
    → lookup queue l.subs ≡ none
    → (channels_of (unlisten queue (listen id queue (d, l))).0 other ≡ channels_of d other)
      × (lookup other (unlisten queue (listen id queue (d, l))).1.subs ≡ lookup other l.subs)
unlisten-listen id queue other d l fresh none_yet =
    let made = unlisten-made id queue d l in
    let kept : without id (channels_of (listen id queue (d, l)).0 queue) ≡ channels_of d queue =
      ap (without id) (listened id queue d l) ∙ without-append id (channels_of d queue) fresh in
    (
      ap (λ s. channels_of s.0 other) made
          ∙ put_back queue other _ (channels_of d queue ++ (new_channel id ∷ [])) d.notify kept,
      ap (λ s. lookup other s.1.subs) made ∙ subs_back queue other id l.subs none_yet,
    )
