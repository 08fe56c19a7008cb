-- ===== src/Policy/Evaluate.antt =====
-- The evaluation of a policy: `Evaluate` of internal/policy/policy.go.
use opensource_project_intel.Base.{
  ℕ, suc, Bool, false, ◌||◌, not, Option, none, some, List, [], ◌∷◌, ◌++◌, if◌then◌else◌, ◌==◌, ltb,
}
use opensource_project_intel.Base.Float.{float_lt, float_eq}
use opensource_project_intel.Base.Int.{ℤ, pos, ltb_ℤ, nonpositive, int_eq}
use opensource_project_intel.Base.Lists.{length}
use opensource_project_intel.Base.Result.{Result, ok, err, is_ok}
use opensource_project_intel.Base.Text.{Text, text_eq}
use opensource_project_intel.Policy.Metric.{
  Status, Status_eq, available, stale, Window, Coverage, valid_window,
}
use opensource_project_intel.Policy.{
  Error, invalid, Outcome, recommended, conditional, not_recommended, insufficient_data, Outcome_eq,
  active_state, State_eq, Operator, greater_than, greater_than_or_equal, less_than,
  less_than_or_equal, equal, other_operator, Rule, Version, validate_version,
}

pub record Fact : Type 0 where
  pub metric_name : Text
  pub metric_version : Text
  pub status : Status
  pub value : Option ℕ
  pub coverage : Coverage
  pub evidence_ids : List ℤ
  pub snapshot_id : ℤ

pub record Factor : Type 0 where
  pub rule_index : ℕ
  pub metric_name : Text
  pub value : ℕ
  pub threshold : ℕ
  pub weight : ℕ
  pub matched : Bool
  pub label : Text

pub record Evaluation : Type 0 where
  pub id : ℤ
  pub project_id : ℤ
  pub policy_id : ℤ
  pub policy_version : ℤ
  pub policy_owner : Text
  pub window : Window
  pub outcome : Outcome
  pub factors : List Factor
  pub evidence_ids : List ℤ
  pub missing : List Text
  pub conditions : List Text
  pub decisive : List Text
  pub stale_inputs : List Text
  pub explanation : Text
  pub input_digest : Text
  pub created_at : ℤ

unfoldable pub compare_floats : ℕ → Operator → ℕ → Bool
unfolding float_lt float_eq
compare_floats value greater_than threshold = float_lt threshold value
compare_floats value greater_than_or_equal threshold =
    float_lt threshold value || float_eq value threshold
compare_floats value less_than threshold = float_lt value threshold
compare_floats value less_than_or_equal threshold =
    float_lt value threshold || float_eq value threshold
compare_floats value equal threshold = float_eq value threshold
compare_floats value (other_operator _) threshold = false

-- `slices.Sort` and `slices.Compact`.
unfoldable pub insert : ℤ → List ℤ → List ℤ
insert x [] = x ∷ []
insert x (y ∷ ys) = let rest = insert x ys in if ltb_ℤ y x then y ∷ rest else x ∷ y ∷ ys

unfoldable pub sort : List ℤ → List ℤ
unfolding insert
sort [] = []
sort (x ∷ xs) = insert x (sort xs)

unfoldable pub drop_repeats : List ℤ → List ℤ
drop_repeats [] = []
drop_repeats (x ∷ []) = x ∷ []
drop_repeats (x ∷ y ∷ ys) = let rest = drop_repeats (y ∷ ys) in if x == y then rest else x ∷ rest

unfoldable pub compact_ids : List ℤ → List ℤ
unfolding sort drop_repeats
compact_ids values = drop_repeats (sort values)

-- `byName[name]`, where a later fact replaces an earlier one of its name.
unfoldable pub by_name : List Fact → Text → Option Fact
by_name [] name = none
by_name (fact ∷ facts) name = later (by_name facts name)
  where
    later : Option Fact → Option Fact
    later (some f) = some f
    later none = if fact.metric_name == name then some fact else none

-- The value that the rule reads: of an available fact of the rule's version.
unfoldable pub input_of : Rule → Option Fact → Option (ℕ × Fact)
input_of rule none = none
input_of rule (some fact) =
    if not (fact.metric_version == rule.metric_version) || not (fact.status == available)
    then none
    else with_fact fact.value
  where
    with_fact : Option ℕ → Option (ℕ × Fact)
    with_fact none = none
    with_fact (some value) = some (value, fact)

abbrev pub is_stale : Option Fact → Bool
is_stale none = false
is_stale (some fact) = fact.status == stale

-- A rule without its input.
abbrev pub unanswered : Rule → Option Fact → Evaluation → Evaluation
unanswered rule fact e = record e {
  stale_inputs = if is_stale fact then e.stale_inputs ++ rule.metric_name ∷ [] else e.stale_inputs;
  missing = if rule.required then e.missing ++ rule.metric_name ∷ [] else e.missing;
}

-- A rule whose value fails it.
abbrev pub failed : Rule → Evaluation → Evaluation
failed rule e =
    if rule.on_failure == not_recommended
    then record e { decisive = e.decisive ++ rule.label ∷ []; outcome = not_recommended }
    else if e.outcome == recommended
    then record e {
      decisive = e.decisive ++ rule.label ∷ [];
      outcome = conditional;
      conditions = e.conditions ++ rule.label ∷ [];
    }
    else record e { decisive = e.decisive ++ rule.label ∷ [] }

abbrev pub answered : ℕ → Rule → ℕ → Fact → Evaluation → Evaluation
answered index rule value fact e =
    let matched = compare_floats value rule.operator rule.threshold in
    let weighed = record e {
      factors =
          e.factors
          ++ record {
            rule_index = index;
            metric_name = rule.metric_name;
            value = value;
            threshold = rule.threshold;
            weight = rule.weight;
            matched = matched;
            label = rule.label;
          }
            ∷ [];
      evidence_ids = e.evidence_ids ++ fact.evidence_ids;
    } in
    if matched then weighed else failed rule weighed

abbrev pub weighed_by : ℕ → Rule → Option Fact → Option (ℕ × Fact) → Evaluation → Evaluation
weighed_by index rule fact none e = unanswered rule fact e
weighed_by index rule fact (some (value, input)) e = answered index rule value input e

-- The loop over the rules.
unfoldable pub weigh_rules : (Text → Option Fact) → ℕ → List Rule → Evaluation → Evaluation
unfolding input_of compare_floats
weigh_rules facts index [] e = e
weigh_rules facts index (rule ∷ rules) e =
    let fact = facts rule.metric_name in
    weigh_rules facts (suc index) rules (weighed_by index rule fact (input_of rule fact) e)

abbrev pub concluded : Evaluation → Evaluation
concluded e = record e {
  outcome = if ltb 0 (length e.missing) then insufficient_data else e.outcome;
  evidence_ids = compact_ids e.evidence_ids;
}

abbrev pub begun : ℤ → Version → Window → Evaluation
begun project_id selected window = record {
  id = pos 0;
  project_id = project_id;
  policy_id = selected.family_id;
  policy_version = selected.version;
  policy_owner = selected.owner;
  window = window;
  outcome = recommended;
  factors = [];
  evidence_ids = [];
  missing = [];
  conditions = [];
  decisive = [];
  stale_inputs = [];
  explanation = [];
  input_digest = [];
  created_at = pos 0;
}

unfoldable pub evaluate :
    (ℕ → ℕ → ℕ) → (ℕ → Bool) → ℤ → Version → Window → List Fact → Result Error Evaluation
unfolding validate_version valid_window by_name weigh_rules compact_ids
evaluate add away_from_one project_id selected window facts =
    if nonpositive project_id
      || not (selected.state == active_state)
      || not (is_ok (validate_version add away_from_one selected))
      || not (valid_window window)
    then err invalid
    else ok (
        concluded (weigh_rules (by_name facts) 0 selected.rules (begun project_id selected window)))
