-- ===== src/Base/Float.antt =====
-- A float64 by its 64 bits: the comparisons of IEEE 754, in which a NaN compares with nothing and the
-- two zeros are equal.
use Prim.Native.Nat.{ℕ, zero, suc, ◌%◌, ◌^◌}
use mathlib.Core.Bool.{Bool, ◌&&◌, not}
use opensource_project_intel.Base.Tests.{ltb, nat_beq, if◌then◌else◌}
use opensource_project_intel.Base.Int.{ℤ, pos, negsuc, ltb_ℤ, int_beq}

abbrev pub infinity : ℕ
infinity = 0x7FF0_0000_0000_0000

abbrev pub magnitude : ℕ → ℕ
magnitude bits = bits % 2 ^ 63

-- `math.IsNaN` and `math.IsInf(x, 0)`.
unfoldable pub is_nan : ℕ → Bool
is_nan bits = ltb infinity (magnitude bits)

unfoldable pub is_inf : ℕ → Bool
is_inf bits = nat_beq (magnitude bits) infinity

abbrev pub opposite : ℕ → ℤ
opposite zero = pos 0
opposite (suc n) = negsuc n

-- An integer in the order of the floats.
unfoldable pub order_key : ℕ → ℤ
order_key bits = if ltb bits (2 ^ 63) then pos bits else opposite (magnitude bits)

unfoldable pub float_lt : ℕ → ℕ → Bool
unfolding is_nan order_key
float_lt x y = not (is_nan x) && not (is_nan y) && ltb_ℤ (order_key x) (order_key y)

unfoldable pub float_eq : ℕ → ℕ → Bool
unfolding is_nan order_key
float_eq x y = not (is_nan x) && not (is_nan y) && int_beq (order_key x) (order_key y)
