-- ===== src/Driver/RateLimit/Requests.antt =====
-- driver/rate_limit.go, fixed windows: the requests of one window, as runs of the accesses that bound
-- the permits.
use goncordia.Prelude.{
  ℕ, ◌+◌, ◌/◌, ◌%◌, ◌≤◌, ◌<◌, ◌≡◌, String, Bool, Option, some, List, [], ◌∷◌, All,
}
use goncordia.Time.{Time, millisecond}
use goncordia.Driver.{Result}
use goncordia.Driver.RateLimit.{CursorStore, World, Outcome, acquired, window_loop}
use goncordia.Driver.RateLimit.Window as Window
use goncordia.Driver.RateLimit.Window.{create}

abbrev pub granted : Option Outcome → ℕ
granted (some acquired) = 1
granted _ = 0

module _ {S : Type 0} (db : CursorStore S) (key : String) (period limit : ℕ) (window : Time)
    (aligned : window % period ≡ 0) (longer : limit < period / millisecond) where
  abbrev pub Access : Type 0
  Access = Window.Access db key period limit window aligned longer

  abbrev pub IsAllowed : Access → Type 0
  IsAllowed = Window.IsAllowed db key period limit window aligned longer

  abbrev pub access : S → Access → S × Result Bool
  access = Window.access db key period limit window aligned longer

  abbrev pub permits : S → List Access → ℕ
  permits = Window.permits db key period limit window aligned longer

  -- The store after one access and another.
  unfoldable pub replay : S → List Access → S
  replay s [] = s
  replay s (a ∷ rest) = replay (access s a).0 rest

  -- Allowed accesses lead from the one store to the other, and at least so many get a permit.
  abbrev pub IsRun : ℕ → S → S → Type 0
  IsRun n s s' =
      (accesses : List Access) × All IsAllowed accesses
      × (s' ≡ replay s accesses)
      × (n ≤ permits s accesses)

  -- What the other processes do in each round of a request is a run.
  abbrev pub Behaves : World S → Type 0
  Behaves world = (n : ℕ) (s : S) → IsRun 0 s (world.others n s)

  module _ (world : World S) (behaves : Behaves world) where
    -- The store after the read of a round.
    abbrev read : S → S
    read s = (access s create).0

  -- The requests of a window, one after another, with how many of them are granted. Each has its fuel and
  -- what the other processes do meanwhile.
  unfoldable pub serve : List (ℕ × World S) → S → S × ℕ
  serve [] s = (s, 0)
  serve ((fuel, world) ∷ requests) s =
      let (s1, outcome) = window_loop db world fuel key window period limit s in
      let (s2, n) = serve requests s1 in (s2, granted outcome + n)
