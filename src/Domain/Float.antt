-- ===== src/Domain/Float.antt =====
-- float64 as the 64-bit IEEE-754 pattern that Go stores, with the tests that the program makes.
use aqua_os.Common.{ℕ, ◌%◌, Bool, not, ◌&&◌, ltb, leb, eqb}

abbrev pub Float64 : Type 0
Float64 = ℕ

abbrev sign_bit : ℕ
sign_bit = 0x8000000000000000

abbrev infinity_bits : ℕ
infinity_bits = 0x7ff0000000000000

abbrev pub magnitude : Float64 → ℕ
magnitude v = v % sign_bit

abbrev pub is_negative : Float64 → Bool
is_negative v = leb sign_bit v

-- `math.IsNaN`.
abbrev pub is_nan : Float64 → Bool
is_nan v = ltb infinity_bits (magnitude v)

-- `math.IsInf(v, 0)`.
abbrev pub is_inf : Float64 → Bool
is_inf v = eqb (magnitude v) infinity_bits

-- `v < 0`: negative, and neither -0 nor not-a-number.
abbrev pub below_zero : Float64 → Bool
below_zero v = is_negative v && ltb 0 (magnitude v) && not (is_nan v)

-- `v > bound` at a bound above zero: among such patterns the order is that of the numbers.
abbrev pub above : Float64 → ℕ → Bool
above v bound = not (is_negative v) && ltb bound (magnitude v) && not (is_nan v)

-- The patterns of 14 and of 100.
abbrev pub fourteen : Float64
fourteen = 0x402c000000000000

abbrev pub hundred : Float64
hundred = 0x4059000000000000
