-- ===== src/Base/Stateful.antt =====
-- Calls that read and change a state and may return an error: the state's changes stand beside one.
use opensource_project_intel.Base.Result.{Result, ok, err}

abbrev pub Action : Type 0 → Type 0 → Type 0 → Type 0
Action S E A = S → Result E A × S

abbrev pub after : {S E A B : Type 0} → (A → Action S E B) → Result E A × S → Result E B × S
after next (ok a, s) = next a s
after next (err e, s) = (err e, s)

infixl 5 ◌>>=◌
abbrev pub ◌>>=◌ : {S E A B : Type 0} → Action S E A → (A → Action S E B) → Action S E B
(step >>= next) s = after next (step s)

-- A call that reads no state.
abbrev pub pure : {S E A : Type 0} → Result E A → Action S E A
pure r s = (r, s)
