-- ===== src/Base/Distinct.antt =====
-- Lists of texts without repetition, as the loops with a map of the texts seen so far find them.
use mathlib.Core.Path.{◌≡◌, refl}
use mathlib.Core.Logic.{◌↔◌}
use mathlib.Core.Bool.{false}
use mathlib.Core.List.{List, [], ◌∷◌}
use native.Mathlib.Omega.{arith}
use opensource_project_intel.Base.Lists.{contains, All}
use opensource_project_intel.Base.Text.{Text, text_eq, text_beq_iff}

-- No text stands twice.
abbrev pub IsDistinct : List Text → Type 0
IsDistinct [] = Unit
IsDistinct (s ∷ ss) = (contains ss s ≡ false) × IsDistinct ss

-- None of them was seen.
abbrev pub IsFresh : List Text → List Text → Type 0
IsFresh seen = All λ s. contains seen s ≡ false

pub IsFresh-cons :
    (x : Text) (seen ss : List Text)
    → IsFresh (x ∷ seen) ss ↔ (IsFresh seen ss × (contains ss x ≡ false))
IsFresh-cons x seen [] = ground arith
IsFresh-cons x seen (s ∷ ss) =
    ground (arith, IsFresh-cons x seen ss, text_beq_iff x s, text_beq_iff s x)

pub IsFresh-nil : (ss : List Text) → IsFresh [] ss
IsFresh-nil [] = tt
IsFresh-nil (s ∷ ss) = (refl, IsFresh-nil ss)
