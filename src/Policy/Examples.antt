-- ===== src/Policy/Examples.antt =====
-- The theorems about policies at concrete inputs.
use opensource_project_intel.Base.{
  ℕ, ◌≡◌, refl, Bool, true, false, none, some, List, [], ◌∷◌, arith,
}
use opensource_project_intel.Base.Int.{pos}
use opensource_project_intel.Base.Result.{ok}
use opensource_project_intel.Base.Text.{Text, codes, is_blank}
use opensource_project_intel.Policy.Metric.{available, Window, definition_by_name, Status-discrete}
use opensource_project_intel.Policy.{
  conditional, not_recommended, active_state, greater_than, less_than, Rule, Version,
  Outcome-discrete, State-discrete,
}
use opensource_project_intel.Policy.Evaluate.{
  Fact, Evaluation, evaluate, begun, concluded, weigh_rules, by_name,
}
use opensource_project_intel.Policy.Verdict.{verdict, failing, evaluate-verdict}
use opensource_project_intel.Policy.Pages.{read_pages, page_versions-covers}

-- The sums are left out: whatever the weights, they are near enough to one.
abbrev add : ℕ → ℕ → ℕ
add x y = x

abbrev away_from_one : ℕ → Bool
away_from_one total = false

abbrev releases : Rule
releases = record {
  metric_name = codes "release_frequency";
  metric_version = codes "v1";
  operator = greater_than;
  threshold = 0x3FF0_0000_0000_0000;
  weight = 0x3FE0_0000_0000_0000;
  required = true;
  required_evidence = codes "releases";
  on_failure = conditional;
  label = codes "releases often";
}

abbrev backlog : Rule
backlog = record {
  metric_name = codes "backlog_change";
  metric_version = codes "v1";
  operator = less_than;
  threshold = 0x3FF0_0000_0000_0000;
  weight = 0x3FE0_0000_0000_0000;
  required = false;
  required_evidence = [];
  on_failure = not_recommended;
  label = codes "keeps up";
}

abbrev policy : Version
policy = record {
  id = pos 1;
  family_id = pos 1;
  version = pos 1;
  name = codes "Adoption";
  description = [];
  owner = codes "Platform";
  state = active_state;
  rules = releases ∷ backlog ∷ [];
  radar_map = λ _. some (codes "trial");
  created_by = pos 8;
  created_at = pos 5;
  activated_at = some (pos 6);
  retired_at = none;
  revision = pos 2;
}

abbrev window : Window
window = record { from = pos 10; to = pos 20; cutoff = pos 30; in_utc = true }

-- One release, and a backlog that grew by two.
abbrev reading : Text → ℕ → Fact
reading name bits = record {
  metric_name = name;
  metric_version = codes "v1";
  status = available;
  value = some bits;
  coverage = record {
    eligible = pos 1;
    observed = pos 1;
    ratio = 0x3FF0_0000_0000_0000;
    note = [];
  };
  evidence_ids = pos 30 ∷ [];
  snapshot_id = pos 40;
}

abbrev facts : List Fact
facts =
    reading (codes "release_frequency") 0x3FF0_0000_0000_0000
    ∷ reading (codes "backlog_change") 0x4000_0000_0000_0000
    ∷ []

abbrev result : Evaluation
result =
    concluded
      (weigh_rules (by_name facts) 0 (releases ∷ backlog ∷ []) (begun (pos 2) policy window))

policy-evaluate : evaluate add away_from_one (pos 2) policy window facts ≡ ok result
unfolding evaluate is_blank Outcome-discrete State-discrete definition_by_name
policy-evaluate = refl

result_barred : result.outcome ≡ not_recommended
unfolding weigh_rules Outcome-discrete Status-discrete by_name
result_barred = refl

evaluate-verdict_example :
    (result.outcome ≡ verdict (by_name facts) (releases ∷ backlog ∷ []))
    × (result.decisive ≡ failing (by_name facts) (releases ∷ backlog ∷ []))
evaluate-verdict_example =
    evaluate-verdict add away_from_one (pos 2) policy window facts policy-evaluate

page_versions-covers_example :
    read_pages 3 (policy ∷ policy ∷ policy ∷ []) 2 0 ≡ ok (policy ∷ policy ∷ policy ∷ [])
page_versions-covers_example =
    page_versions-covers (policy ∷ policy ∷ policy ∷ []) 2 3 omega arith omega arith omega arith
      omega arith
