-- ===== src/Alert.antt =====
-- Alert rules, their deduplicated occurrences and the members' read state: internal/alert/alert.go.
-- A float64 is its 64 bits, an instant and a duration are nanoseconds, and an int is an integer whose
-- increment is wrapped to 64 bits. `other` is any string that is none of a type's constants.
pub mod Evaluation
pub mod Changes
mod Examples
use native.Mathlib.Decide.{ℕ_discrete}
use opensource_project_intel.Base.{
  ℕ, ◌^◌, Bool, true, false, ◌&&◌, ◌||◌, not, Option, none, some, List, [], ◌∷◌, ◌++◌,
  if◌then◌else◌, Eq, ◌==◌, eq_of_discrete,
}
use opensource_project_intel.Base.Float.{is_nan, is_inf, float_lt, float_eq}
use opensource_project_intel.Base.Int.{
  ℤ, pos, negsuc, ◌-ℤ◌, ltb_ℤ, leb_ℤ, nonpositive, inc64, int_eq, max_int64,
}
use opensource_project_intel.Base.Lists.{contains}
use opensource_project_intel.Base.Result.{Result, ok, err, fail_if, is_ok, ◌>>=◌, ◌>>◌}
use opensource_project_intel.Base.Text.{Text, codes, text_eq, is_blank, trim_space}
use opensource_project_intel.Access
use opensource_project_intel.Access.{Principal, authorize, project_write, intelligence_read}

pub data Error : Type 0 where
  invalid : Error
  access : Access.Error → Error

pub record Limits : Type 0 where
  pub rules : ℤ
  pub occurrences : ℤ

abbrev pub default_limits : Limits
default_limits = record { rules = pos 500; occurrences = pos 10_000 }

unfoldable pub validate_volume : Limits → ℤ → ℤ → Result Error (Unit {0})
validate_volume l rule_count occurrence_count =
    fail_if
      (nonpositive l.rules
        || nonpositive l.occurrences
        || ltb_ℤ rule_count (pos 0)
        || ltb_ℤ occurrence_count (pos 0)
        || ltb_ℤ l.rules rule_count
        || ltb_ℤ l.occurrences occurrence_count)
      invalid

pub data Severity : Type 0 where
  info warning critical : Severity
  other_severity : Text → Severity

pub data State : Type 0 where
  open_state acknowledged resolved dismissed : State
  other_state : Text → State

pub data Operator : Type 0 where
  greater_than less_than equal : Operator
  other_operator : Text → Operator

unfoldable pub State-discrete : Discrete State
State-discrete = hlevel ℕ_discrete

instance abbrev pub State_eq : Eq State
State_eq = eq_of_discrete State-discrete

-- The keys of `knownSignals`.
abbrev pub known_signals : List Text
known_signals =
    codes "metric.release_frequency"
    ∷ codes "metric.active_contributors"
    ∷ codes "metric.median_issue_first_response"
    ∷ codes "metric.median_pr_merge_time"
    ∷ codes "trend.increase"
    ∷ codes "trend.decrease"
    ∷ codes "forecast.warning"
    ∷ codes "recommendation.not_recommended"
    ∷ codes "recommendation.conditional"
    ∷ []

pub record Rule : Type 0 where
  pub id : ℤ
  pub version : ℤ
  pub name : Text
  pub signal : Text
  pub operator : Operator
  pub threshold : ℕ
  pub scope : Text
  pub project_id : ℤ
  pub severity : Severity
  pub cooldown : ℤ
  pub deduplication : ℤ
  pub enabled : Bool
  pub created_by : ℤ
  pub updated_at : ℤ

abbrev pub known_operator : Operator → Bool
known_operator (other_operator _) = false
known_operator _ = true

abbrev pub known_severity : Severity → Bool
known_severity (other_severity _) = false
known_severity _ = true

-- `365*24*time.Hour`.
abbrev pub longest_deduplication : ℤ
longest_deduplication = pos 31_536_000_000_000_000

unfoldable pub validate_rule : Rule → Result Error (Unit {0})
unfolding is_nan is_inf
validate_rule r =
    fail_if
      (nonpositive r.version
        || is_blank r.name
        || not (contains known_signals r.signal)
        || not (known_operator r.operator)
        || is_nan r.threshold
        || is_inf r.threshold
        || (not (r.scope == codes "workspace") && not (r.scope == codes "project"))
        || (r.scope == codes "project" && nonpositive r.project_id)
        || not (known_severity r.severity)
        || ltb_ℤ r.cooldown (pos 0)
        || nonpositive r.deduplication
        || ltb_ℤ longest_deduplication r.deduplication)
      invalid

pub record Fact : Type 0 where
  pub project_id : ℤ
  pub signal : Text
  pub version : Text
  pub value : Option ℕ
  pub evidence_id : ℤ
  pub window_from : ℤ
  pub window_to : ℤ
  pub detected_at : ℤ
  pub complete : Bool
  pub archived : Bool

pub record Occurrence : Type 0 where
  pub id : ℤ
  pub rule_id : ℤ
  pub rule_version : ℤ
  pub project_id : ℤ
  pub signal_version : Text
  pub severity : Severity
  pub state : State
  pub window_from : ℤ
  pub window_to : ℤ
  pub evidence_ids : List ℤ
  pub first_detected_at : ℤ
  pub last_detected_at : ℤ
  pub suppression_count : ℤ
  pub transition_reason : Text
  pub transitioned_by : ℤ
  pub revision : ℤ

unfoldable pub matches : ℕ → Operator → ℕ → Bool
unfolding float_lt float_eq
matches value greater_than threshold = float_lt threshold value
matches value less_than threshold = float_lt value threshold
matches value equal threshold = float_eq value threshold
matches value (other_operator _) threshold = false

-- `t.Sub(u)`, which stops at the bounds of a Duration.
unfoldable pub sub_time : ℤ → ℤ → ℤ
unfolding ◌-ℤ◌
sub_time t u =
    let d = t -ℤ u in
    if ltb_ℤ (pos max_int64) d
    then pos max_int64
    else if ltb_ℤ d (negsuc max_int64)
    then negsuc max_int64
    else d

-- `fact.Value == nil || … || !matches(*fact.Value, …)`, negated.
abbrev pub fires : Option ℕ → Rule → Bool
fires none rule = false
fires (some value) rule = matches value rule.operator rule.threshold

-- The fact is malformed or is another rule's: `Evaluate` returns an error.
unfoldable pub unfit : Rule → Fact → Bool
unfolding validate_rule
unfit rule fact =
    not (is_ok (validate_rule rule))
    || nonpositive fact.project_id
    || not (fact.signal == rule.signal)
    || fact.detected_at == pos 0
    || not (ltb_ℤ fact.window_from fact.window_to)

-- The fact makes an alert.
unfoldable pub alarming : Rule → Fact → Bool
unfolding matches
alarming rule fact =
    rule.enabled
    && not fact.archived
    && fact.complete
    && not (nonpositive fact.evidence_id)
    && fires fact.value rule

-- The fact falls into the deduplication window of the occurrence.
unfoldable pub duplicates : Rule → Fact → Occurrence → Bool
unfolding sub_time
duplicates rule fact o =
    o.rule_id == rule.id
    && o.rule_version == rule.version
    && o.project_id == fact.project_id
    && leb_ℤ (sub_time fact.detected_at o.first_detected_at) rule.deduplication

-- The copy with the fact counted in.
unfoldable pub suppress : Fact → Occurrence → Occurrence
unfolding inc64
suppress fact o = record o {
  last_detected_at = fact.detected_at;
  suppression_count = inc64 o.suppression_count;
  revision = inc64 o.revision;
  evidence_ids =
      if not (nonpositive fact.evidence_id) && not (contains o.evidence_ids fact.evidence_id)
      then o.evidence_ids ++ fact.evidence_id ∷ []
      else o.evidence_ids;
}

unfoldable pub opened : Rule → Fact → Occurrence
opened rule fact = record {
  id = pos 0;
  rule_id = rule.id;
  rule_version = rule.version;
  project_id = fact.project_id;
  signal_version = fact.version;
  severity = rule.severity;
  state = open_state;
  window_from = fact.window_from;
  window_to = fact.window_to;
  evidence_ids = fact.evidence_id ∷ [];
  first_detected_at = fact.detected_at;
  last_detected_at = fact.detected_at;
  suppression_count = pos 0;
  transition_reason = [];
  transitioned_by = pos 0;
  revision = pos 1;
}

unfoldable pub merge : Rule → Fact → Option Occurrence → Occurrence
unfolding duplicates suppress opened
merge rule fact none = opened rule fact
merge rule fact (some o) = if duplicates rule fact o then suppress fact o else opened rule fact

unfoldable pub evaluate : Rule → Fact → Option Occurrence → Result Error (Option Occurrence)
unfolding unfit alarming merge
evaluate rule fact existing =
    if unfit rule fact
    then err invalid
    else if not (alarming rule fact)
    then ok existing
    else ok (some (merge rule fact existing))

unfoldable pub allowed_transition : State → State → Bool
allowed_transition open_state to = to == acknowledged || to == resolved || to == dismissed
allowed_transition acknowledged to = to == open_state || to == resolved || to == dismissed
allowed_transition resolved to = to == open_state
allowed_transition dismissed to = to == open_state
allowed_transition (other_state _) to = false

abbrev pub in_access : {A : Type 0} → Result Access.Error A → Result Error A
in_access (ok a) = ok a
in_access (err e) = err (access e)

unfoldable pub transition : Principal → Occurrence → State → Text → ℤ → Result Error Occurrence
unfolding allowed_transition inc64
transition principal o to reason expected_revision =
    in_access (authorize principal project_write)
    >> fail_if (not (o.revision == expected_revision)) (access Access.version_conflict)
    >> fail_if (is_blank reason || not (allowed_transition o.state to)) invalid
    >> ok (record o {
      state = to;
      transition_reason = trim_space reason;
      transitioned_by = principal.actor_id;
      revision = inc64 o.revision;
    })

pub record MemberState : Type 0 where
  pub occurrence_id : ℤ
  pub member_id : ℤ
  pub read_at : Option ℤ

unfoldable pub mark_read : Principal → ℤ → ℤ → Result Error MemberState
mark_read principal occurrence_id at =
    in_access (authorize principal intelligence_read)
    >> fail_if (nonpositive occurrence_id || at == pos 0) invalid
    >> ok (record {
      occurrence_id = occurrence_id;
      member_id = principal.actor_id;
      read_at = some at;
    })
