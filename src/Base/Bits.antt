-- ===== src/Base/Bits.antt =====
-- Go's `|` on words whose fields do not overlap is a sum of the fields.
use Prim.Native.Nat.{
  ℕ, zero, suc, ◌+◌, ◌*◌, ◌/◌, ◌%◌, ◌^◌, ◌≤◌, ◌<◌, max, bit_or, digits, bit_or-bitwise,
}
use mathlib.Core.Path.{◌≡◌, sym, ap}
use native.Mathlib.Nat.{pow-suc}
use native.Mathlib.Omega.{arith}

-- The digit recursion behind `bit_or`, with its fuel.
abbrev or_digits : ℕ → ℕ → ℕ → ℕ
or_digits fuel x y = digits (λ rest. rest) max fuel x y

or_digits_halve :
    (x y : ℕ) → bit_or (suc x) y ≡ or_digits x (suc x / 2) (y / 2) * 2 + max (suc x % 2) (y % 2)
or_digits_halve x y = bit_or-bitwise (suc x) y

zero-bit_or : (y : ℕ) → bit_or 0 y ≡ y
zero-bit_or y = bit_or-bitwise 0 y

-- Any fuel that covers the first word gives the native result. `bound` covers the fuel.
or_digits-eq-bit_or :
    (bound fuel x y : ℕ) → fuel ≤ bound → x ≤ fuel → or_digits fuel x y ≡ bit_or x y
or_digits-eq-bit_or bound zero zero y g h = sym (zero-bit_or y)
or_digits-eq-bit_or bound zero (suc x) y g h = absurd (omega arith)
or_digits-eq-bit_or bound (suc fuel) zero y g h = sym (zero-bit_or y)
or_digits-eq-bit_or zero (suc fuel) (suc x) y g h = absurd (omega arith)
or_digits-eq-bit_or (suc bound) (suc fuel) (suc x) y g h = omega (
  arith,
  or_digits_halve x y,
  or_digits-eq-bit_or bound fuel (suc x / 2) (y / 2) (omega arith) (omega arith),
  or_digits-eq-bit_or bound x (suc x / 2) (y / 2) (omega arith) (omega arith),
)

bit_or_halve : (x y : ℕ) → bit_or x y ≡ bit_or (x / 2) (y / 2) * 2 + max (x % 2) (y % 2)
bit_or_halve zero y = omega (arith, zero-bit_or y, zero-bit_or (y / 2))
bit_or_halve (suc x) y = omega (
  arith,
  or_digits_halve x y,
  or_digits-eq-bit_or x x (suc x / 2) (y / 2) (omega arith) (omega arith),
)

bit_or-zero_bound : (bound x : ℕ) → x ≤ bound → bit_or x 0 ≡ x
bit_or-zero_bound bound zero h = zero-bit_or 0
bit_or-zero_bound zero (suc x) h = absurd (omega arith)
bit_or-zero_bound (suc bound) (suc x) h =
    omega (arith, bit_or_halve (suc x) 0, bit_or-zero_bound bound (suc x / 2) (omega arith))

-- A field of `k` low bits beside a word that is shifted past it.
pub bit_or-shifted : (q k low : ℕ) → low < 2 ^ k → bit_or (q * 2 ^ k) low ≡ q * 2 ^ k + low
bit_or-shifted q zero low h = ground (arith, bit_or-zero_bound q q)
bit_or-shifted q (suc k) low h = ground (
  arith,
  bit_or_halve (q * 2 ^ suc k) low,
  ap (λ (t : ℕ). q * t) (pow-suc 2 k),
  pow-suc 2 k,
  bit_or-shifted q k (low / 2),
)
