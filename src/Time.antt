-- ===== src/Time.antt =====
-- What the program uses of Go's `time` package. Times are nanoseconds since the zero time.
use goncordia.Prelude.{ℕ, ◌+◌, ◌-◌, ◌*◌, ◌%◌, ℤ, pos, negsuc, suc, Bool, ltb, ◌==◌, if◌then◌else◌}

abbrev pub Time : Type 0
Time = ℕ

abbrev pub is_zero : Time → Bool
is_zero t = t == 0

-- t.Before(u); t.After(u) is `before u t`
abbrev pub before : Time → Time → Bool
before t u = ltb t u

-- t.Add(d); a time before the zero time is not represented, and the sum stops there.
unfoldable pub add : Time → ℤ → Time
add t (pos n) = t + n
add t (negsuc n) = t - suc n

-- t.Truncate(d): rounded down to a multiple of d since the zero time, or t for d <= 0
unfoldable pub truncate : Time → ℕ → Time
truncate t d = if d == 0 then t else t - t % d

abbrev pub millisecond : ℕ
millisecond = 1000000

abbrev pub second : ℕ
second = 1000000000

abbrev pub hour : ℕ
hour = 3600 * 1000000000
