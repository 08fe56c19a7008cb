-- ===== src/Policy/Verdict.antt =====
-- The recommendation of a policy: `Evaluate` of internal/policy/policy.go against its reading.
use mathlib.Core.List.{append-nil, append_assoc}
use opensource_project_intel.Base.{
  ℕ, suc, ◌≡◌, refl, sym, ◌∙◌, ap, Bool, true, false, ◌&&◌, ◌||◌, not, Option, none, some, List, [],
  ◌∷◌, ◌++◌, if◌then◌else◌, ◌==◌, ltb, arith,
}
use opensource_project_intel.Base.Int.{ℤ}
use opensource_project_intel.Base.Lists.{length, length-append}
use opensource_project_intel.Base.Result.{ok, err}
use opensource_project_intel.Base.Text.{Text}
use opensource_project_intel.Policy.Metric.{Window}
use opensource_project_intel.Policy.{
  Error, Outcome, recommended, conditional, not_recommended, insufficient_data, other_outcome,
  Outcome_eq, Rule, Version, Outcome-discrete,
}
use opensource_project_intel.Policy.Evaluate.{
  Fact, Evaluation, compare_floats, by_name, input_of, weighed_by, weigh_rules, begun, evaluate,
  failed,
}

abbrev pub any : {A : Type 0} → (A → Bool) → List A → Bool
any p [] = false
any p (x ∷ xs) = p x || any p xs

-- Whether a rule is without an input, and whether it has one that fails it.
abbrev pub no_input : Option (ℕ × Fact) → Bool
no_input none = true
no_input (some _) = false

abbrev pub fails_on : Rule → Option (ℕ × Fact) → Bool
fails_on rule none = false
fails_on rule (some (value, _)) = not (compare_floats value rule.operator rule.threshold)

module _ (facts : Text → Option Fact) where
  abbrev pub lacks : Rule → Bool
  lacks rule = rule.required && no_input (input_of rule (facts rule.metric_name))

  abbrev pub fails : Rule → Bool
  fails rule = fails_on rule (input_of rule (facts rule.metric_name))

  abbrev pub bars : Rule → Bool
  bars rule = fails rule && rule.on_failure == not_recommended

  -- The labels of the rules that fail.
  abbrev pub failing : List Rule → List Text
  failing [] = []
  failing (rule ∷ rules) = if fails rule then rule.label ∷ failing rules else failing rules

  -- What the rules recommend.
  abbrev pub verdict : List Rule → Outcome
  verdict rules =
      if any lacks rules
      then insufficient_data
      else if any bars rules
      then not_recommended
      else if any fails rules
      then conditional
      else recommended

-- One rule.
weighed_by-outcome :
    (index : ℕ) (rule : Rule) (fact : Option Fact) (input : Option (ℕ × Fact)) (e : Evaluation)
    → (weighed_by index rule fact input e).outcome ≡ (
        if fails_on rule input && rule.on_failure == not_recommended
        then not_recommended
        else if fails_on rule input && e.outcome == recommended
        then conditional
        else e.outcome)
weighed_by-outcome index rule fact none e = refl
weighed_by-outcome index rule fact (some (value, input)) e = ground arith

weighed_by-missing :
    (index : ℕ) (rule : Rule) (fact : Option Fact) (input : Option (ℕ × Fact)) (e : Evaluation)
    → ltb 0 (length (weighed_by index rule fact input e).missing)
      ≡ (ltb 0 (length e.missing) || (rule.required && no_input input))
weighed_by-missing index rule fact none e =
    ground (arith, length-append e.missing (rule.metric_name ∷ []))
weighed_by-missing index rule fact (some (value, input)) e = ground arith

weighed_by-decisive :
    (index : ℕ) (rule : Rule) (fact : Option Fact) (input : Option (ℕ × Fact)) (e : Evaluation)
    → (weighed_by index rule fact input e).decisive
      ≡ (if fails_on rule input then e.decisive ++ rule.label ∷ [] else e.decisive)
weighed_by-decisive index rule fact none e = refl
weighed_by-decisive index rule fact (some (value, input)) e = ground arith

-- What a rule does to the outcome, before what the rest does.
abbrev outcome_after : Bool → Bool → Outcome → Outcome
outcome_after barred failed o =
    if barred then not_recommended else if failed && o == recommended then conditional else o

outcome_after_both :
    (b f bs fs : Bool) (o : Outcome)
    → outcome_after bs fs (outcome_after b f o) ≡ outcome_after (b || bs) (f || fs) o
unfolding Outcome-discrete
outcome_after_both b f true fs o = ground arith
outcome_after_both true f false true o = ground arith
outcome_after_both true f false false o = ground arith
outcome_after_both false true false true recommended = refl
outcome_after_both false true false true conditional = refl
outcome_after_both false true false true not_recommended = refl
outcome_after_both false true false true insufficient_data = refl
outcome_after_both false true false true (other_outcome _) = refl
outcome_after_both false true false false recommended = refl
outcome_after_both false true false false conditional = refl
outcome_after_both false true false false not_recommended = refl
outcome_after_both false true false false insufficient_data = refl
outcome_after_both false true false false (other_outcome _) = refl
outcome_after_both false false false fs o = refl

decisive_both :
    (b : Bool) (label : Text) (before after : List Text)
    → (if b then before ++ label ∷ [] else before) ++ after
      ≡ before ++ (if b then label ∷ after else after)
decisive_both true label before after = append_assoc before (label ∷ []) after
decisive_both false label before after = refl

module _ (facts : Text → Option Fact) where
  weigh_rules-outcome :
      (index : ℕ) (rules : List Rule) (e : Evaluation)
      → (weigh_rules facts index rules e).outcome
        ≡ outcome_after (any (bars facts) rules) (any (fails facts) rules) e.outcome
  unfolding weigh_rules
  weigh_rules-outcome index [] e = refl
  weigh_rules-outcome index (rule ∷ rules) e =
      let input = input_of rule (facts rule.metric_name) in
      let next = weighed_by index rule (facts rule.metric_name) input e in
      weigh_rules-outcome (suc index) rules next
      ∙ ap (outcome_after (any (bars facts) rules) (any (fails facts) rules))
          (weighed_by-outcome index rule (facts rule.metric_name) input e)
      ∙ outcome_after_both (bars facts rule) (fails facts rule) (any (bars facts) rules)
          (any (fails facts) rules) e.outcome

  weigh_rules-missing :
      (index : ℕ) (rules : List Rule) (e : Evaluation)
      → ltb 0 (length (weigh_rules facts index rules e).missing)
        ≡ (ltb 0 (length e.missing) || any (lacks facts) rules)
  unfolding weigh_rules
  weigh_rules-missing index [] e = ground arith
  weigh_rules-missing index (rule ∷ rules) e =
      let input = input_of rule (facts rule.metric_name) in
      let next = weighed_by index rule (facts rule.metric_name) input e in
      weigh_rules-missing (suc index) rules next
      ∙ ap (λ b. b || any (lacks facts) rules)
          (weighed_by-missing index rule (facts rule.metric_name) input e)
      ∙ ground arith

  weigh_rules-decisive :
      (index : ℕ) (rules : List Rule) (e : Evaluation)
      → (weigh_rules facts index rules e).decisive ≡ e.decisive ++ failing facts rules
  unfolding weigh_rules
  weigh_rules-decisive index [] e = sym (append-nil e.decisive)
  weigh_rules-decisive index (rule ∷ rules) e =
      let input = input_of rule (facts rule.metric_name) in
      let next = weighed_by index rule (facts rule.metric_name) input e in
      weigh_rules-decisive (suc index) rules next
      ∙ ap (λ ds. ds ++ failing facts rules)
          (weighed_by-decisive index rule (facts rule.metric_name) input e)
      ∙ decisive_both (fails facts rule) rule.label e.decisive (failing facts rules)

verdict-outcome :
    (lacking barred failed : Bool) (few : Bool) (o : Outcome)
    → few ≡ (false || lacking)
    → o ≡ outcome_after barred failed recommended
    → (if few then insufficient_data else o) ≡ (
        if lacking
        then insufficient_data
        else if barred
        then not_recommended
        else if failed
        then conditional
        else recommended)
unfolding Outcome-discrete
verdict-outcome true b f few o p q = ground (arith, p)
verdict-outcome false b f few o p q = ground (arith, p, q)

unless-ok :
    {A : Type 0} (refused : Bool) (error : Error) {x y : A}
    → (if refused then err error else ok x) ≡ ok y
    → x ≡ y
unless-ok true error h = cc
unless-ok false error h = cc

-- An evaluation recommends what its rules say: there is too little data exactly when a required rule
-- has no available value of its version; otherwise the project is not recommended when a rule with
-- that consequence fails, recommended with conditions when another rule fails, and recommended when
-- none does. The decisive factors are the labels of the failing rules in their order.
pub evaluate-verdict :
    (add : ℕ → ℕ → ℕ) (away_from_one : ℕ → Bool) (project_id : ℤ) (selected : Version)
    (window : Window) (facts : List Fact) {e : Evaluation}
    → evaluate add away_from_one project_id selected window facts ≡ ok e
    → (e.outcome ≡ verdict (by_name facts) selected.rules)
      × (e.decisive ≡ failing (by_name facts) selected.rules)
unfolding evaluate
evaluate-verdict add away_from_one project_id selected window facts h =
    let rules = selected.rules in
    let start = begun project_id selected window in
    let weighed = weigh_rules (by_name facts) 0 rules start in
    let same = unless-ok _ _ h in
    let little = weigh_rules-missing (by_name facts) 0 rules start in
    let judged = weigh_rules-outcome (by_name facts) 0 rules start in
    (
      sym (ap (λ x. x.outcome) same)
          ∙ verdict-outcome (any (lacks (by_name facts)) rules) (any (bars (by_name facts)) rules)
              (any (fails (by_name facts)) rules) _ weighed.outcome little judged,
      sym (ap (λ x. x.decisive) same) ∙ weigh_rules-decisive (by_name facts) 0 rules start,
    )
