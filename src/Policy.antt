-- ===== src/Policy.antt =====
-- Adoption policies and the recommendations they give: internal/policy/policy.go, with the catalog
-- and the windows of internal/metric/metric.go that it calls. A float64 is its 64 bits; its addition
-- and the test for a sum away from one are the arguments `add` and `away_from_one`. An instant is
-- nanoseconds. `other` is any string that is none of a type's constants. A map is a function.
pub mod Metric
pub mod Evaluate
pub mod Versions
pub mod Verdict
pub mod Pages
mod Examples
use native.Mathlib.Decide.{ℕ_discrete}
use opensource_project_intel.Base.{
  ℕ, zero, suc, ◌+◌, ◌-◌, Bool, true, false, ◌&&◌, ◌||◌, not, Option, none, some, List, [], ◌∷◌,
  ◌++◌, if◌then◌else◌, Eq, ◌==◌, eq_of_discrete, leb, ltb,
}
use opensource_project_intel.Base.Float.{is_nan, is_inf, float_lt, float_eq}
use opensource_project_intel.Base.Int.{ℤ, pos, pos_part, ltb_ℤ, nonpositive, inc64, int_eq}
use opensource_project_intel.Base.Lists.{length, contains, all}
use opensource_project_intel.Base.Result.{Result, ok, err, fail_if, is_ok, ◌>>◌}
use opensource_project_intel.Base.Text.{Text, codes, text_eq, is_blank}
use opensource_project_intel.Policy.Metric
use opensource_project_intel.Policy.Metric.{
  Status, available, stale, Window, Coverage, definition_by_name, valid_window,
}

pub data Error : Type 0 where
  invalid : Error

pub data Outcome : Type 0 where
  recommended conditional not_recommended insufficient_data : Outcome
  other_outcome : Text → Outcome

pub data State : Type 0 where
  draft active_state superseded retired : State
  other_state : Text → State

pub data Operator : Type 0 where
  greater_than greater_than_or_equal less_than less_than_or_equal equal : Operator
  other_operator : Text → Operator

unfoldable pub Outcome-discrete : Discrete Outcome
Outcome-discrete = hlevel ℕ_discrete

unfoldable pub State-discrete : Discrete State
State-discrete = hlevel ℕ_discrete

instance abbrev pub Outcome_eq : Eq Outcome
Outcome_eq = eq_of_discrete Outcome-discrete

instance abbrev pub State_eq : Eq State
State_eq = eq_of_discrete State-discrete

unfoldable pub valid_outcome : Outcome → Bool
valid_outcome (other_outcome _) = false
valid_outcome _ = true

pub record Rule : Type 0 where
  pub metric_name : Text
  pub metric_version : Text
  pub operator : Operator
  pub threshold : ℕ
  pub weight : ℕ
  pub required : Bool
  pub required_evidence : Text
  pub on_failure : Outcome
  pub label : Text

pub record Version : Type 0 where
  pub id : ℤ
  pub family_id : ℤ
  pub version : ℤ
  pub name : Text
  pub description : Text
  pub owner : Text
  pub state : State
  pub rules : List Rule
  pub radar_map : Outcome → Option Text
  pub created_by : ℤ
  pub created_at : ℤ
  pub activated_at : Option ℤ
  pub retired_at : Option ℤ
  pub revision : ℤ

abbrev pub radar_rings : List Text
radar_rings = codes "adopt" ∷ codes "trial" ∷ codes "assess" ∷ codes "hold" ∷ codes "unplaced" ∷ []

unfoldable pub valid_operator : Operator → Bool
valid_operator (other_operator _) = false
valid_operator _ = true

-- `!known || definition.Version != version`.
abbrev pub other_definition : Option Metric.Definition → Text → Bool
other_definition none version = true
other_definition (some d) version = not (d.version == version)

-- The bits of 1.0.
abbrev pub float_one : ℕ
float_one = 0x3FF0_0000_0000_0000

-- No typed rule of the catalog.
unfoldable pub untyped : Rule → Bool
unfolding valid_operator is_nan is_inf float_lt float_eq
untyped rule =
    other_definition (definition_by_name rule.metric_name) rule.metric_version
    || not (valid_operator rule.operator)
    || is_nan rule.threshold
    || is_inf rule.threshold
    || (float_lt rule.weight 0 || float_eq rule.weight 0)
    || float_lt float_one rule.weight
    || (not (rule.on_failure == conditional) && not (rule.on_failure == not_recommended))
    || is_blank rule.label
    || (rule.required && is_blank rule.required_evidence)

-- The lower and the upper bound of a metric, where there is one.
abbrev pub Bounds : Type 0
Bounds = Option ℕ × Option ℕ

abbrev pub raised : Option ℕ → ℕ → Option ℕ
raised none threshold = some threshold
raised (some bound) threshold = if float_lt bound threshold then some threshold else some bound

abbrev pub lowered : Option ℕ → ℕ → Option ℕ
lowered none threshold = some threshold
lowered (some bound) threshold = if float_lt threshold bound then some threshold else some bound

unfoldable pub bound_by : Operator → ℕ → Bounds → Bounds
unfolding float_lt
bound_by greater_than threshold (low, high) = (raised low threshold, high)
bound_by greater_than_or_equal threshold (low, high) = (raised low threshold, high)
bound_by less_than threshold (low, high) = (low, lowered high threshold)
bound_by less_than_or_equal threshold (low, high) = (low, lowered high threshold)
bound_by equal threshold pair = pair
bound_by (other_operator _) threshold pair = pair

-- The loop over the rules: none where one of them is not typed, and otherwise the sum of the weights
-- and the bounds.
unfoldable pub collect_rules :
    (ℕ → ℕ → ℕ) → List Rule → ℕ → (Text → Bounds) → Option (ℕ × (Text → Bounds))
unfolding untyped bound_by
collect_rules add [] total bounds = some (total, bounds)
collect_rules add (rule ∷ rules) total bounds =
    let pair = bound_by rule.operator rule.threshold (bounds rule.metric_name) in
    let rest =
      collect_rules add rules (add total rule.weight)
        (λ name. if name == rule.metric_name then pair else bounds name) in
    if untyped rule then none else rest

abbrev pub crossed : Bounds → Bool
crossed (some low, some high) = float_lt high low
crossed (some _, none) = false
crossed (none, _) = false

abbrev pub unmapped : Option Text → Bool
unmapped none = true
unmapped (some ring) = not (contains radar_rings ring)

abbrev pub check_collected :
    (ℕ → Bool) → List Rule → Option (ℕ × (Text → Bounds)) → Result Error (Unit {0})
check_collected away_from_one rules none = err invalid
check_collected away_from_one rules (some (total, bounds)) =
    fail_if (away_from_one total || not (all (λ r. not (crossed (bounds r.metric_name))) rules))
      invalid

unfoldable pub validate_version : (ℕ → ℕ → ℕ) → (ℕ → Bool) → Version → Result Error (Unit {0})
unfolding collect_rules float_lt
validate_version add away_from_one v =
    fail_if
      (nonpositive v.version
        || is_blank v.name
        || is_blank v.owner
        || leb (length v.rules) 0
        || ltb 100 (length v.rules))
      invalid
    >> check_collected away_from_one v.rules (collect_rules add v.rules 0 (λ _. (none, none)))
    >> fail_if
        (unmapped (v.radar_map recommended)
          || unmapped (v.radar_map conditional)
          || unmapped (v.radar_map not_recommended)
          || unmapped (v.radar_map insufficient_data))
        invalid
