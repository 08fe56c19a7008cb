-- ===== src/Policy/Versions.antt =====
-- The states of a policy version and the pages of its history: internal/policy/policy.go.
use opensource_project_intel.Base.{
  ℕ, zero, suc, ◌+◌, ◌-◌, Bool, false, ◌||◌, not, some, List, [], ◌∷◌, if◌then◌else◌, ◌==◌, leb,
  ltb,
}
use opensource_project_intel.Base.Int.{ℤ, pos, pos_part, ltb_ℤ, nonpositive, inc64, int_eq}
use opensource_project_intel.Base.Lists.{length}
use opensource_project_intel.Base.Result.{Result, ok, err, is_ok}
use opensource_project_intel.Base.Text.{text_eq}
use opensource_project_intel.Policy.Metric.{Status_eq}
use opensource_project_intel.Policy.{
  Error, invalid, draft, active_state, retired, State_eq, Version, validate_version,
}

unfoldable pub activate : (ℕ → ℕ → ℕ) → (ℕ → Bool) → Version → ℤ → Result Error Version
unfolding validate_version inc64
activate add away_from_one v now =
    if not (v.state == draft) || not (is_ok (validate_version add away_from_one v)) || now == pos 0
    then err invalid
    else ok
        (record v { state = active_state; activated_at = some now; revision = inc64 v.revision })

unfoldable pub retire : Version → ℤ → Result Error Version
unfolding inc64
retire v now =
    if not (v.state == active_state) || now == pos 0
    then err invalid
    else ok (record v { state = retired; retired_at = some now; revision = inc64 v.revision })

-- `values[from:]` and `values[:n]`.
abbrev pub drop : {A : Type 0} → ℕ → List A → List A
drop zero xs = xs
drop (suc n) [] = []
drop (suc n) (x ∷ xs) = drop n xs

abbrev pub take : {A : Type 0} → ℕ → List A → List A
take zero xs = []
take (suc n) [] = []
take (suc n) (x ∷ xs) = x ∷ take n xs

abbrev pub min : ℕ → ℕ → ℕ
min a b = if leb a b then a else b

-- The page and whether there is another one after it. The sum cannot wrap around: `offset` is below
-- the length there.
unfoldable pub page_versions : List Version → ℤ → ℤ → Result Error (List Version × Bool)
page_versions values limit offset =
    let from = pos_part offset in
    let end = min (length values) (from + pos_part limit) in
    if nonpositive limit || ltb_ℤ (pos 200) limit || ltb_ℤ offset (pos 0)
    then err invalid
    else if leb (length values) from
    then ok ([], false)
    else ok (take (end - from) (drop from values), ltb end (length values))
