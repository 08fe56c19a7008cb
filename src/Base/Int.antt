-- ===== src/Base/Int.antt =====
-- Signed integers. Go's int and int64 are ℤ with the wrap-around of `inc64` written out. An
-- instant (time.Time) is the ℤ of nanoseconds since Go's zero time, the first of January of the
-- year 1, so that `IsZero` is the test for 0; the location that `UTC` sets is no part of it.
use Prim.Native.Nat.{ℕ, zero, suc, ◌+◌, ◌-◌, ◌*◌, ◌/◌, ◌%◌, ◌^◌, ◌≤◌, ◌<◌}
use mathlib.Core.Path.{◌≡◌, refl}
use mathlib.Core.Logic.{◌↔◌, ◌⊎◌, inl, inr}
use mathlib.Core.Bool.{Bool, true}
use native.Mathlib.Omega.{arith}
use opensource_project_intel.Base.Tests.{ltb, leb, nat_beq, if◌then◌else◌, Eq}

-- `negsuc n` is -(n + 1).
pub data ℤ : Type 0 where
  pos : ℕ → ℤ
  negsuc : ℕ → ℤ

abbrev pub pos_part : ℤ → ℕ
pos_part (pos n) = n
pos_part (negsuc n) = 0

abbrev pub neg_part : ℤ → ℕ
neg_part (pos n) = 0
neg_part (negsuc n) = suc n

abbrev pub sub_ℕ : ℕ → ℕ → ℤ
sub_ℕ a b = if leb b a then pos (a - b) else negsuc (b - a - 1)

infixl 65 ◌+ℤ◌ ◌-ℤ◌
infix 50 ◌≤ℤ◌ ◌<ℤ◌
unfoldable pub ◌+ℤ◌ : ℤ → ℤ → ℤ
a +ℤ b = sub_ℕ (pos_part a + pos_part b) (neg_part a + neg_part b)

unfoldable pub ◌-ℤ◌ : ℤ → ℤ → ℤ
a -ℤ b = sub_ℕ (pos_part a + neg_part b) (neg_part a + pos_part b)

abbrev pub ◌≤ℤ◌ : ℤ → ℤ → Type 0
a ≤ℤ b = pos_part a + neg_part b ≤ pos_part b + neg_part a

abbrev pub ◌<ℤ◌ : ℤ → ℤ → Type 0
a <ℤ b = pos_part a + neg_part b < pos_part b + neg_part a

abbrev pub ltb_ℤ : ℤ → ℤ → Bool
ltb_ℤ a b = ltb (pos_part a + neg_part b) (pos_part b + neg_part a)

abbrev pub leb_ℤ : ℤ → ℤ → Bool
leb_ℤ a b = leb (pos_part a + neg_part b) (pos_part b + neg_part a)

abbrev pub int_beq : ℤ → ℤ → Bool
int_beq a b = nat_beq (pos_part a + neg_part b) (pos_part b + neg_part a)

pub int_beq_iff : (a b : ℤ) → (int_beq a b ≡ true) ↔ (a ≡ b)
int_beq_iff a b = ground arith

instance abbrev pub int_eq : Eq ℤ
int_eq = record { beq = int_beq; beq_iff = int_beq_iff }

-- `x <= 0`, the guard on identifiers, versions and bounds.
abbrev pub nonpositive : ℤ → Bool
nonpositive x = leb_ℤ x (pos 0)

-- `x++` on an int64.
abbrev pub max_int64 : ℕ
max_int64 = 2 ^ 63 - 1

unfoldable pub inc64 : ℤ → ℤ
inc64 (pos n) = if nat_beq n max_int64 then negsuc max_int64 else pos (n + 1)
inc64 (negsuc zero) = pos 0
inc64 (negsuc (suc n)) = negsuc n

pub +ℤ_parts :
    (a b : ℤ)
    → pos_part (a +ℤ b) + neg_part a + neg_part b ≡ neg_part (a +ℤ b) + pos_part a + pos_part b
unfolding ◌+ℤ◌
+ℤ_parts a b = ground arith

pub -ℤ_parts :
    (a b : ℤ)
    → pos_part (a -ℤ b) + neg_part a + pos_part b ≡ neg_part (a -ℤ b) + pos_part a + neg_part b
unfolding ◌-ℤ◌
-ℤ_parts a b = ground arith

pub eq_of_parts : (a b : ℤ) → pos_part a + neg_part b ≡ pos_part b + neg_part a → a ≡ b
eq_of_parts a b h = ground arith

-- Below the largest int64 an increment adds one.
pub inc64_parts :
    (a : ℤ)
    → a <ℤ pos max_int64
    → pos_part (inc64 a) + neg_part a ≡ neg_part (inc64 a) + pos_part a + 1
unfolding inc64
inc64_parts (pos n) h = ground arith
inc64_parts (negsuc zero) h = omega arith
inc64_parts (negsuc (suc n)) h = omega arith

pub lt-inc64 : (a : ℤ) → a <ℤ pos max_int64 → a <ℤ inc64 a
lt-inc64 a h = omega (arith, inc64_parts a h)

pub inc64-le : (a : ℤ) → a <ℤ pos max_int64 → inc64 a ≤ℤ a +ℤ pos 1
inc64-le a h = omega (arith, inc64_parts a h, +ℤ_parts a (pos 1))

pub ruleset int_laws = (arith, +ℤ_parts, -ℤ_parts, eq_of_parts)

-- The int64 that an exact result wraps to.
word64 : ℤ → ℕ
word64 (pos n) = n % 2 ^ 64
word64 (negsuc n) = 2 ^ 64 - 1 - n % 2 ^ 64

unfoldable pub wrap64 : ℤ → ℤ
unfolding word64
wrap64 z = let bits = word64 z in if ltb bits (2 ^ 63) then pos bits else negsuc (2 ^ 64 - 1 - bits)

-- Division by a positive number, rounded down.
unfoldable pub div_floor : ℤ → ℕ → ℤ
div_floor (pos n) d = pos (n / d)
div_floor (negsuc n) d = negsuc (n / d)

-- `t.UnixMilli()`, and `time.UnixMilli(ms)`: milliseconds since the start of 1970.
abbrev pub unix_zero : ℕ
unix_zero = 62_135_596_800_000_000_000

unfoldable pub unix_milli : ℤ → ℤ
unfolding div_floor ◌-ℤ◌
unix_milli t = div_floor (t -ℤ pos unix_zero) 1_000_000

-- An integer's multiple by a positive number.
unfoldable pub scale : ℕ → ℤ → ℤ
scale k (pos n) = pos (k * n)
scale k (negsuc n) = negsuc (k * n + k - 1)

unfoldable pub from_unix_milli : ℤ → ℤ
unfolding scale ◌+ℤ◌
from_unix_milli ms = pos unix_zero +ℤ scale 1_000_000 ms

-- An integer is not above and below zero at once.
pub parts_apart : (z : ℤ) → (pos_part z ≡ 0) ⊎ (neg_part z ≡ 0)
parts_apart (pos n) = inr refl
parts_apart (negsuc n) = inl refl
