-- ===== src/Prelude/Clock.antt =====
-- Go's `time.Time` as nanoseconds since the zero time, and `time.Duration` where it is not
-- negative. `Sub` saturates at the largest `Duration`, as Go's does.
use Prim.Native.Nat.{ℕ, ◌-◌, ◌*◌, ◌/◌, ◌^◌, min}
use mathlib.Core.Bool.{Bool}
use otel_magnify.Prelude.Tests.{ltb, nat_beq}

abbrev pub Time : Type 0
Time = ℕ

abbrev pub Duration : Type 0
Duration = ℕ

abbrev pub second : Duration
second = 1_000_000_000

abbrev pub minute : Duration
minute = 60 * second

abbrev pub max_duration : Duration
max_duration = 2 ^ 63 - 1

abbrev pub is_zero : Time → Bool
is_zero t = nat_beq t 0

abbrev pub before : Time → Time → Bool
before t u = ltb t u

abbrev pub after : Time → Time → Bool
after t u = ltb u t

-- What a column of type TIMESTAMPTZ, or a parameter of a query that stands for one, keeps of a time:
-- the whole microseconds.
abbrev pub to_micros : Time → Time
to_micros t = t / 1000 * 1000

-- `t.Sub(u)`, for the comparisons that the program makes: 0 stands for every negative difference.
abbrev pub sub_time : Time → Time → Duration
sub_time t u = min (t - u) max_duration
