-- ===== src/Base/Lists.antt =====
-- Lists over the native numbers, and the parts of Go's `slices` that the program uses.
use Prim.Native.Nat.{ℕ, suc, ◌+◌}
use mathlib.Core.Path.{◌≡◌}
use mathlib.Core.Bool.{Bool, true, false, ◌&&◌, ◌||◌}
use mathlib.Core.List.{List, [], ◌∷◌, ◌++◌}
use native.Mathlib.Omega.{arith}
use opensource_project_intel.Base.Tests.{Eq, ◌==◌}

module _ {ℓ} {A : Type ℓ} where
  abbrev pub length : List A → ℕ
  length [] = 0
  length (x ∷ xs) = suc (length xs)

  pub length-append : (xs ys : List A) → length (xs ++ ys) ≡ length xs + length ys
  length-append [] ys = omega arith
  length-append (x ∷ xs) ys = omega (arith, length-append xs ys)

  -- `for … { if !p(x) { return … } }`: every element passes.
  abbrev pub all : (A → Bool) → List A → Bool
  all p [] = true
  all p (x ∷ xs) = p x && all p xs

  abbrev pub All : (A → Type 0) → List A → Type 0
  All P [] = Unit
  All P (x ∷ xs) = P x × All P xs

  pub All-append : (P : A → Type 0) (us vs : List A) → All P us → All P vs → All P (us ++ vs)
  All-append P [] vs pu pv = pv
  All-append P (u ∷ us) vs pu pv = (pu.0, All-append P us vs pu.1 pv)

  pub All-split :
      (P : A → Type 0) (us : List A) (v : A) (vs : List A)
      → All P (us ++ v ∷ vs)
      → All P us × P v × All P vs
  All-split P [] v vs h = (tt, h.0, h.1)
  All-split P (u ∷ us) v vs h =
      let (first, here, last) = All-split P us v vs h.1 in ((h.0, first), here, last)

  pub All-map : (P Q : A → Type 0) (us : List A) → ((u : A) → P u → Q u) → All P us → All Q us
  All-map P Q [] f h = tt
  All-map P Q (u ∷ us) f h = (f u h.0, All-map P Q us f h.1)

-- `slices.Contains`.
module _ {A : Type 0} ⦃e : Eq A⦄ where
  abbrev pub contains : List A → A → Bool
  contains [] a = false
  contains (x ∷ xs) a = x == a || contains xs a
