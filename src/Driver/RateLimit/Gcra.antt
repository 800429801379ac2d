-- ===== src/Driver/RateLimit/Gcra.antt =====
-- driver/rate_limit.go, GCRA: the loop decides, and over any interleaving of processes the permits
-- are spaced by the interval but for the burst.
use goncordia.Prelude.{
  ℕ, zero, suc, ◌+◌, ◌-◌, ◌*◌, ◌≤◌, ◌<◌, ◌==◌, ◌≡◌, ◌≢◌, refl, ap, ◌∙◌, ◌⊎◌, inl, inr, String, Bool,
  true, false, ltb, if◌then◌else◌, Bool-cases, Option, none, some, List, [], ◌∷◌, All, arith,
}
use goncordia.Time.{Time}
use goncordia.Driver.{Result, ok, err}
use goncordia.Driver.RateLimit.{
  CursorStore, World, Outcome, acquired, retry_at, failed, store, cancelled, gcra_next, gcra_loop,
}

abbrev pub gained : Result Bool → ℕ
gained (ok true) = 1
gained (ok false) = 0
gained (err e) = 0

gained-le : (got : Result Bool) → gained got ≤ 1
gained-le (ok true) = omega arith
gained-le (ok false) = omega arith
gained-le (err e) = omega arith

-- The first access got `g` permits, and the rest `m`.
spaced :
    (g m interval low low' high : ℕ)
    → g ≤ 1
    → low + g * interval ≤ low'
    → (g ≡ 0) ⊎ (low ≤ high)
    → (m ≡ 0) ⊎ (low' + m * interval ≤ high + interval)
    → (g + m ≡ 0) ⊎ (low + (g + m) * interval ≤ high + interval)
spaced zero m interval low low' high one up first rest = elim rest [
  | inl no_more ↦ inl (omega (arith, no_more))
  | inr more ↦ inr (omega arith)
]
spaced (suc zero) m interval low low' high one up first rest = elim rest [
  | inl no_more ↦ inr (rw no_more (ground arith))
  | inr more ↦ inr (omega arith)
]
spaced (suc (suc g)) m interval low low' high one up first rest = absurd (omega arith)

module _ {S : Type 0} (db : CursorStore S) (key : String) (interval tolerance : ℕ) where
  -- One access of some process to the cursor. A write carries what its process has read, which may
  -- be out of date.
  pub data Access : Type 0 where
    create : Time → Access
    write : (now seen : Time) → Access

  -- A process writes where its read allows it a permit.
  abbrev pub IsAllowed : Access → Type 0
  IsAllowed (create now) = Unit
  IsAllowed (write now seen) = seen - tolerance ≤ now

  -- The store after an access, and whether the access got a permit.
  unfoldable pub access : S → Access → S × Result Bool
  unfolding gcra_next
  access s (create now) =
      let (s', read) = db.get_or_create s (record { id = key; initial_at = now }) in
      (s', elim read [ ok _ ↦ ok false | err e ↦ err e ])
  access s (write now seen) =
      db.advance s (record { id = key; expected = seen; next = gcra_next interval now seen })

  -- How many of the accesses, one after another, get a permit.
  unfoldable pub permits : S → List Access → ℕ
  permits s [] = 0
  permits s (a ∷ rest) = let (s', got) = access s a in gained got + permits s' rest

  -- The process's clock shows a time of the span, and it keeps the rule.
  abbrev pub Within : Time → Time → Access → Type 0
  Within start end (create now) = (start ≤ now) × (now ≤ end)
  Within start end (write now seen) = (start ≤ now) × (now ≤ end) × (seen - tolerance ≤ now)

  -- The cursor, where it is after `start`.
  abbrev floor : Time → Option Time → Time
  floor start none = start
  floor start (some at) = if ltb at start then start else at

  abbrev floor_at : Time → S → Time
  floor_at start s = floor start (db.cursor s key)

  -- An access moves the cursor up, by the interval where it gets a permit.
  Raises : Time → Time → S → S × Result Bool → Type 0
  Raises start end s (s', got) =
      (floor_at start s + gained got * interval ≤ floor_at start s')
      × ((gained got ≡ 0) ⊎ (floor_at start s ≤ end + tolerance))

  create-Raises :
      (s : S) (start end now : Time)
      → Within start end (create now)
      → Raises start end s (access s (create now))
  unfolding access Raises
  create-Raises s start end now w =
      elim (db.get_or_create_law s (record { id = key; initial_at = now })) [
        | inl (at, known, kept, r) ↦ rw (r, known, kept) (omega arith, inl refl)
        | inr (inl (free, made, r)) ↦ rw (r, free, made) (ground arith, inl refl)
        | inr (inr (e, r, inl kept)) ↦ rw (r, kept) (omega arith, inl refl)
        | inr (inr (e, r, inr (free, made))) ↦ rw (r, free, made) (ground arith, inl refl)
      ]

  write-Raises :
      (s : S) (start end now seen : Time)
      → start ≤ end
      → Within start end (write now seen)
      → Raises start end s (access s (write now seen))
  unfolding access Raises gcra_next
  write-Raises s start end now seen span w =
      elim (db.advance_law s
        (record { id = key; expected = seen; next = gcra_next interval now seen })) [
          | inl (known, moved, r) ↦ rw (r, known, moved) (ground arith, inr (ground arith))
          | inr (inl (stale, kept, r)) ↦ rw (r, kept) (omega arith, inl refl)
          | inr (inr (e, r, inl kept)) ↦ rw (r, kept) (omega arith, inl refl)
          | inr (inr (e, r, inr (known, moved))) ↦ rw (r, known, moved) (ground arith, inl refl)
        ]

  access-Raises :
      (s : S) (start end : Time) (a : Access)
      → start ≤ end
      → Within start end a
      → Raises start end s (access s a)
  access-Raises s start end (create now) span w = create-Raises s start end now w
  access-Raises s start end (write now seen) span w = write-Raises s start end now seen span w

  permits-floor :
      (s : S) (start end : Time) (accesses : List Access)
      → start ≤ end
      → All (Within start end) accesses
      → (permits s accesses ≡ 0)
        ⊎ (floor_at start s + permits s accesses * interval ≤ end + tolerance + interval)
  unfolding permits Raises
  permits-floor s start end [] span w = inl refl
  permits-floor s start end (a ∷ rest) span w =
      let raises = access-Raises s start end a span w.0 in
      let more = permits-floor (access s a).0 start end rest span w.1 in
      spaced (gained (access s a).1) (permits (access s a).0 rest) interval (floor_at start s)
        (floor_at start (access s a).0) (end + tolerance) (gained-le (access s a).1) raises.0
        raises.1 more

  -- Over any interleaving of the processes' reads and writes of one cursor, the number of permits
  -- that are got times the interval is at most the span between the times `start` and `end`, the
  -- tolerance and one interval together, where every process's clock shows a time of the span and
  -- a process writes only where its read, which may be out of date, allows a permit.
  pub permits_bounded :
      (s : S) (start end : Time) (accesses : List Access)
      → start ≤ end
      → All (Within start end) accesses
      → start + permits s accesses * interval ≤ end + tolerance + interval
  permits_bounded s start end accesses span w = elim (permits-floor s start end accesses span w) [
    | inl none_got ↦ rw none_got (omega arith)
    | inr spaced ↦ ground arith
  ]

module _ {S : Type 0} (db : CursorStore S) (world : World S) (key : String) (now : Time)
    (interval tolerance : ℕ) where
  abbrev Decided : S × Option Outcome → Type 0
  Decided (s, o) = (outcome : Outcome) × (o ≡ some outcome)

  -- The round's end, from the read of `at`: it decides, unless another process moved the cursor.
  swap : ℕ → S → Time → S × Option Outcome
  unfolding gcra_loop
  swap round s1 at =
      if ltb now (at - tolerance)
      then (s1, some (retry_at (at - tolerance)))
      else let (s2, written) =
          db.advance (world.others round s1)
            (record { id = key; expected = at; next = gcra_next interval now at }) in
        elim written [
          | err e ↦ (s2, some (failed (store e)))
          | ok true ↦ (s2, some acquired)
          | ok false ↦
              let again = gcra_loop db world round key now interval tolerance s2 in
              if world.is_done round then (s2, some (failed cancelled)) else again
        ]

  swap-Decided :
      (round : ℕ) (s1 : S) (at : Time)
      → ((db.cursor (world.others round s1) key ≢ some at)
          → (s2 : S) → Decided (gcra_loop db world round key now interval tolerance s2))
      → Decided (swap round s1 at)
  unfolding swap
  swap-Decided round s1 at more = elim (Bool-cases (ltb now (at - tolerance))) [
    | inl early ↦ (retry_at (at - tolerance), rw early refl)
    | inr due ↦
        elim (db.advance_law (world.others round s1)
          (record { id = key; expected = at; next = gcra_next interval now at })) [
            | inl (known, moved, r) ↦ (acquired, rw (due, r) refl)
            | inr (inr (e, r, k)) ↦ (failed (store e), rw (due, r) refl)
            | inr (inl (stale, kept, r)) ↦ elim (Bool-cases (world.is_done round)) [
              | inl over ↦ (failed cancelled, rw (due, r, over) refl)
              | inr going ↦ rw (due, r, going) (more stale _)
            ]
          ]
  ]

  -- A quiet round is never stale, so that it is still to come.
  quiet_later :
      (round quiet : ℕ) (s1 : S) (at : Time)
      → quiet < suc round
      → ((s : S) → db.cursor (world.others quiet s) key ≡ db.cursor s key)
      → db.cursor s1 key ≡ some at
      → (db.cursor (world.others round s1) key ≢ some at)
      → quiet < round
  quiet_later round quiet s1 at room still known stale = elim (Bool-cases (quiet == round)) [
    | inl same ↦
        absurd
          (stale (ap (λ n. db.cursor (world.others n s1) key) (ground arith) ∙ still s1 ∙ known))
    | inr other ↦ ground arith
  ]

  -- The loop of a GCRA request ends with a permit, a retry time or an error where its rounds
  -- include one in which no other process moves the cursor between the read and the write.
  pub gcra_loop-decides :
      (fuel quiet : ℕ) (s : S)
      → quiet < fuel
      → ((s : S) → db.cursor (world.others quiet s) key ≡ db.cursor s key)
      → (outcome : Outcome) × ((gcra_loop db world fuel key now interval tolerance s).1
          ≡ some outcome)
  unfolding gcra_loop swap
  gcra_loop-decides zero quiet s room still = absurd (omega arith)
  gcra_loop-decides (suc round) quiet s room still =
      elim (db.get_or_create_law s (record { id = key; initial_at = now })) [
        | inl (at, known, kept, r) ↦
            rw (r, gcra_loop)
              (swap-Decided round _ at (λ stale s2.
                gcra_loop-decides round quiet s2
                  (quiet_later round quiet _ at room still kept stale) still))
        | inr (inl (free, made, r)) ↦
            rw (r, gcra_loop)
              (swap-Decided round _ now (λ stale s2.
                gcra_loop-decides round quiet s2
                  (quiet_later round quiet _ now room still made stale) still))
        | inr (inr (e, r, k)) ↦ (failed (store e), rw (r, gcra_loop) refl)
      ]
