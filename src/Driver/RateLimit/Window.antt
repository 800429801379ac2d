-- ===== src/Driver/RateLimit/Window.antt =====
-- driver/rate_limit.go, fixed windows: a window grants at most its limit.
use goncordia.Prelude.{
  ℕ, suc, ◌+◌, ◌-◌, ◌/◌, ◌%◌, ◌≤◌, ◌<◌, ◌==◌, ◌≡◌, ◌≢◌, refl, sym, ap, ◌∙◌, ◌⊎◌, inl, inr, String,
  Bool, if◌then◌else◌, Bool-cases, Option, none, some, List, [], ◌∷◌, All, arith,
}
use goncordia.Time.{Time, truncate, millisecond}
use goncordia.Driver.{Result, ok, err}
use goncordia.Driver.RateLimit.{CursorStore, window_count}
use goncordia.Driver.RateLimit.Gcra.{gained}
use native.Mathlib.Nat.{mod-add-mod, mod-eq_of_lt, mod-lt, mod-le}

-- A time of the window that begins at `window` is rounded down to it.
truncate-window :
    (window r period : ℕ) → window % period ≡ 0 → r < period → truncate (window + r) period ≡ window
unfolding truncate
truncate-window window r period aligned short =
    let rest : (window + r) % period ≡ r =
      sym (mod-add-mod window period r)
      ∙ ap (λ n. (n + r) % period) aligned
      ∙ ap (λ n. n % period) (omega arith)
      ∙ mod-eq_of_lt short in
    ground (arith, rest)

count-window :
    (window r period : ℕ)
    → window % period ≡ 0
    → r < period
    → window_count period (window + r) ≡ r / millisecond
unfolding window_count
count-window window r period aligned short =
    ap (λ t. (window + r - t) / millisecond) (truncate-window window r period aligned short)
    ∙ ap (λ n. n / millisecond) (omega arith)

-- A time that is rounded down to the window is the window and less than a period.
in_window :
    (window at period : ℕ)
    → 0 < period
    → truncate at period ≡ window
    → (r : ℕ) × (r < period) × (at ≡ window + r)
unfolding truncate
in_window window at period some_period e =
    (at % period, mod-lt at some_period, ground (arith, mod-le at period))

module _ {S : Type 0} (db : CursorStore S) (key : String) (period limit : ℕ) (window : Time)
    (aligned : window % period ≡ 0) (longer : limit < period / millisecond) where
  -- One access to the cursor of a process whose request falls in the window. A write carries what
  -- the process has read, which may be out of date.
  pub data Access : Type 0 where
    create : Access
    reset increment : (seen : Time) → Access

  -- A process resets a cursor of another window and increments one of its own below the limit.
  abbrev pub IsAllowed : Access → Type 0
  IsAllowed create = Unit
  IsAllowed (reset seen) = truncate seen period ≢ window
  IsAllowed (increment seen) = (truncate seen period ≡ window) × (window_count period seen < limit)

  -- The store after an access, and whether the access got a permit.
  unfoldable pub access : S → Access → S × Result Bool
  access s create =
      let (s', read) =
        db.get_or_create s (record { id = key; initial_at = window + millisecond }) in
      (s', elim read [ ok current ↦ ok current.created | err e ↦ err e ])
  access s (reset seen) =
      db.advance s (record { id = key; expected = seen; next = window + millisecond })
  access s (increment seen) =
      db.advance s (record { id = key; expected = seen; next = seen + millisecond })

  -- How many of the accesses, one after another, get a permit.
  unfoldable pub permits : S → List Access → ℕ
  permits s [] = 0
  permits s (a ∷ rest) = let (s', got) = access s a in gained got + permits s' rest

  -- The permits that the cursor counts for the window.
  abbrev level : Option Time → ℕ
  level none = 0
  level (some at) = if truncate at period == window then window_count period at else 0

  abbrev level_at : S → ℕ
  level_at s = level (db.cursor s key)

  level-window : (r : ℕ) → r < period → level (some (window + r)) ≡ r / millisecond
  level-window r short = ground (
    arith,
    truncate-window window r period aligned short,
    count-window window r period aligned short,
  )

  level-increment :
      (seen : Time)
      → IsAllowed (increment seen)
      → (level (some (seen + millisecond)) ≡ suc (level (some seen)))
        × (level (some (seen + millisecond)) ≤ limit)
  level-increment seen (here, room) =
      let (r, short, at) = in_window window seen period (omega (arith, longer)) here in
      let known : window_count period seen ≡ r / millisecond =
        ap (window_count period) at ∙ count-window window r period aligned short in
      let fits : r + millisecond < period = omega (arith, known, room, longer) in
      let before : level (some seen) ≡ r / millisecond =
        ap (λ t. level (some t)) at ∙ level-window r short in
      let after : level (some (seen + millisecond)) ≡ (r + millisecond) / millisecond =
        ap (λ t. level (some t)) (omega (arith, at)) ∙ level-window (r + millisecond) fits in
      (omega (arith, before, after), omega (arith, before, after, known, room))

  level-initial : 1 ≤ limit → level (some (window + millisecond)) ≡ 1
  level-initial some_limit =
      level-window millisecond (omega (arith, longer, some_limit)) ∙ omega arith

  level-other : (seen : Time) → truncate seen period ≢ window → level (some seen) ≡ 0
  level-other seen elsewhere = elim (Bool-cases (truncate seen period == window)) [
    | inl same ↦ absurd (elsewhere (ground (arith, same)))
    | inr other ↦ rw other refl
  ]

  -- An access counts what it permits, up to the limit.
  Counts : S → S × Result Bool → Type 0
  Counts s (s', got) =
      (level_at s + gained got ≤ level_at s') × ((level_at s ≤ limit) → level_at s' ≤ limit)

  module _ (some_limit : 1 ≤ limit) where
    create-Counts : (s : S) → Counts s (access s create)
    unfolding access Counts
    create-Counts s =
        elim (db.get_or_create_law s (record { id = key; initial_at = window + millisecond })) [
          | inl (at, known, kept, r) ↦ rw (r, known, kept) (omega arith, λ h. h)
          | inr (inl (free, made, r)) ↦
              rw (r, free, made)
                (
                  omega (arith, level-initial some_limit),
                  λ h. omega (arith, level-initial some_limit),
                )
          | inr (inr (e, r, inl kept)) ↦ rw (r, kept) (omega arith, λ h. h)
          | inr (inr (e, r, inr (free, made))) ↦
              rw (r, free, made) (omega arith, λ h. omega (arith, level-initial some_limit))
        ]

    reset-Counts : (s : S) (seen : Time) → IsAllowed (reset seen) → Counts s (access s (reset seen))
    unfolding access Counts
    reset-Counts s seen allowed =
        elim (db.advance_law s
          (record { id = key; expected = seen; next = window + millisecond })) [
            | inl (known, moved, r) ↦
                rw (r, known, moved)
                  (
                    omega (arith, level-initial some_limit, level-other seen allowed),
                    λ h. omega (arith, level-initial some_limit),
                  )
            | inr (inl (stale, kept, r)) ↦ rw (r, kept) (omega arith, λ h. h)
            | inr (inr (e, r, inl kept)) ↦ rw (r, kept) (omega arith, λ h. h)
            | inr (inr (e, r, inr (known, moved))) ↦
                rw (r, known, moved)
                  (
                    omega (arith, level-other seen allowed),
                    λ h. omega (arith, level-initial some_limit),
                  )
          ]

    increment-Counts :
        (s : S) (seen : Time) → IsAllowed (increment seen) → Counts s (access s (increment seen))
    unfolding access Counts
    increment-Counts s seen allowed =
        let (up, bounded) = level-increment seen allowed in
        elim (db.advance_law s (record { id = key; expected = seen; next = seen + millisecond })) [
          | inl (known, moved, r) ↦ rw (r, known, moved) (omega (arith, up), λ h. bounded)
          | inr (inl (stale, kept, r)) ↦ rw (r, kept) (omega arith, λ h. h)
          | inr (inr (e, r, inl kept)) ↦ rw (r, kept) (omega arith, λ h. h)
          | inr (inr (e, r, inr (known, moved))) ↦
              rw (r, known, moved) (omega (arith, up), λ h. bounded)
        ]

    access-Counts : (s : S) (a : Access) → IsAllowed a → Counts s (access s a)
    access-Counts s create allowed = create-Counts s
    access-Counts s (reset seen) allowed = reset-Counts s seen allowed
    access-Counts s (increment seen) allowed = increment-Counts s seen allowed

    permits-level :
        (s : S) (accesses : List Access)
        → level_at s ≤ limit
        → All IsAllowed accesses
        → level_at s + permits s accesses ≤ limit
    unfolding permits Counts
    permits-level s [] low allowed = omega (arith, low)
    permits-level s (a ∷ rest) low allowed =
        let (counts, stays) = access-Counts s a allowed.0 in
        omega (arith, counts, permits-level (access s a).0 rest (stays low) allowed.1)

    -- From a cursor that is not there or stands in another window, over any interleaving of
    -- processes whose requests all fall in one window, the permits are at most the limit, where the
    -- limit is positive and less than the milliseconds of the period, and a process writes only
    -- where its read, which may be out of date, allows it.
    pub window_bounded :
        (s : S) (accesses : List Access)
        → (db.cursor s key ≡ none)
          ⊎ ((at : Time) × (db.cursor s key ≡ some at) × (truncate at period ≢ window))
        → All IsAllowed accesses
        → permits s accesses ≤ limit
    window_bounded s accesses (inl free) allowed =
        let low : level_at s ≡ 0 = ap level free in
        omega (arith, permits-level s accesses (omega (arith, low)) allowed)
    window_bounded s accesses (inr (at, known, elsewhere)) allowed =
        let low : level_at s ≡ 0 = ap level known ∙ level-other at elsewhere in
        omega (arith, permits-level s accesses (omega (arith, low)) allowed)
