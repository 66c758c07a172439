-- ===== src/Common/Clock.antt =====
-- Go's time package as the program uses it. An instant is its count of nanoseconds since the zero
-- instant (midnight, January 1 of year 1, UTC), so `IsZero` tests for 0; instants before it are
-- not represented. A duration is a signed 64-bit count of nanoseconds, and `Sub` saturates.
use Prim.Native.Nat.{ℕ, suc, ◌+◌, ◌-◌, ◌/◌, ◌%◌, min}
use mathlib.Core.Bool.{Bool}
use aqua_os.Common.Tests.{ltb, leb, eqb, if◌then◌else◌}
use aqua_os.Common.Int.{ℤ, pos, negsuc, ◌+ℤ◌}

abbrev pub Time : Type 0
Time = ℕ

abbrev pub Duration : Type 0
Duration = ℤ

abbrev pub is_zero : Time → Bool
is_zero t = eqb t 0

abbrev pub before : Time → Time → Bool
before a b = ltb a b

abbrev pub after : Time → Time → Bool
after a b = ltb b a

abbrev pub max_int64 : ℕ
max_int64 = 9223372036854775807

-- `a.Sub(b)`, saturated at the ends of the 64-bit range.
unfoldable pub sub_time : Time → Time → Duration
sub_time a b = if leb b a then pos (min (a - b) max_int64) else negsuc (min (b - a - 1) max_int64)

-- `t.Add(d)`.
unfoldable pub add_time : Time → Duration → Time
add_time t (pos n) = t + n
add_time t (negsuc n) = t - suc n

-- The low 64 bits read as a signed number.
unfoldable pub to_signed : ℕ → ℤ
to_signed m = if leb m max_int64 then pos m else negsuc (18446744073709551615 - m)

unfoldable pub wrap_int64 : ℤ → ℤ
wrap_int64 (pos n) = to_signed (n % 18446744073709551616)
wrap_int64 (negsuc n) = to_signed (18446744073709551615 - n % 18446744073709551616)

-- The sum of two durations in 64-bit two's complement.
unfoldable pub add_duration : Duration → Duration → Duration
unfolding wrap_int64
add_duration a b = wrap_int64 (a +ℤ b)

-- The calendar day of an instant in UTC: what `Format("2006-01-02")` distinguishes.
abbrev pub day_length : ℕ
day_length = 86400000000000

abbrev pub utc_date : Time → ℕ
utc_date t = t / day_length
