-- ===== src/Alert/Examples.antt =====
-- The theorems about alerts at concrete inputs.
use opensource_project_intel.Base.{◌≡◌, refl, ◌↔◌, true, false, none, some, [], ◌∷◌, map, arith}
use opensource_project_intel.Base.Int.{ℤ, pos, inc64, int_eq, leb_ℤ}
use opensource_project_intel.Base.Lists.{contains}
use opensource_project_intel.Base.Result.{ok}
use opensource_project_intel.Base.Text.{codes, is_blank, trim_space}
use opensource_project_intel.Access
use opensource_project_intel.Access.{Principal, authorize, project_write}
use opensource_project_intel.Alert.{
  warning, acknowledged, greater_than, Rule, Fact, Occurrence, unfit, alarming, opened, transition,
  sub_time,
}
use opensource_project_intel.Alert.Evaluation.{
  evaluate_all, IsRepeat, IsShared, evaluate-deduplicates,
}
use opensource_project_intel.Alert.Changes.{Change, alert_transition_iff}

abbrev rule : Rule
rule = record {
  id = pos 1;
  version = pos 1;
  name = codes "Quiet";
  signal = codes "trend.decrease";
  operator = greater_than;
  threshold = 0x3FE0_0000_0000_0000;
  scope = codes "workspace";
  project_id = pos 0;
  severity = warning;
  cooldown = pos 0;
  deduplication = pos 3_600_000_000_000;
  enabled = true;
  created_by = pos 8;
  updated_at = pos 5;
}

abbrev fact : Fact
fact = record {
  project_id = pos 2;
  signal = codes "trend.decrease";
  version = codes "v1";
  value = some 0x3FF0_0000_0000_0000;
  evidence_id = pos 30;
  window_from = pos 10;
  window_to = pos 20;
  detected_at = pos 100;
  complete = true;
  archived = false;
}

abbrev later : Fact
later = record fact { evidence_id = pos 31; detected_at = pos 200 }

fact-fit : unfit rule fact ≡ false
unfolding unfit is_blank
fact-fit = refl

fact-alarming : alarming rule fact ≡ true
unfolding alarming
fact-alarming = refl

later-fit : unfit rule later ≡ false
unfolding unfit is_blank
later-fit = refl

later-alarming : alarming rule later ≡ true
unfolding alarming
later-alarming = refl

later-near : leb_ℤ (sub_time later.detected_at fact.detected_at) rule.deduplication ≡ true
unfolding sub_time
later-near = refl

later-repeats : IsRepeat rule fact later
later-repeats = ((later-fit, later-alarming), refl, later-near)

evaluate-deduplicates_example :
    (o : Occurrence) × (evaluate_all rule (fact ∷ later ∷ later ∷ []) none ≡ ok (some o))
    × IsShared rule fact 2 o
    × ((x : ℤ)
        → contains o.evidence_ids x
          ≡ contains (map (λ f. f.evidence_id) (fact ∷ later ∷ later ∷ [])) x)
evaluate-deduplicates_example =
    evaluate-deduplicates rule fact (later ∷ later ∷ []) (fact-fit, fact-alarming)
      (later-repeats, (later-repeats, tt)) omega arith

abbrev analyst : Principal
analyst = record {
  actor_id = pos 8;
  kind = Access.member;
  role = Access.analyst;
  status = Access.active;
  scopes = [];
  version = pos 1;
  workspace = pos 1;
}

abbrev seen : Occurrence
seen = record (opened rule fact) {
  state = acknowledged;
  transition_reason = codes "seen";
  transitioned_by = pos 8;
  revision = pos 2;
}

alert_transition_iff_example :
    (transition analyst (opened rule fact) acknowledged (codes "seen") (pos 1) ≡ ok seen) ↔ (
      (authorize analyst project_write ≡ ok tt)
      × ((opened rule fact).revision ≡ pos 1)
      × (is_blank (codes "seen") ≡ false)
      × Change (opened rule fact).state acknowledged
      × (seen ≡ record (opened rule fact) {
        state = acknowledged;
        transition_reason = trim_space (codes "seen");
        transitioned_by = analyst.actor_id;
        revision = inc64 (opened rule fact).revision;
      }))
alert_transition_iff_example =
    alert_transition_iff analyst (opened rule fact) acknowledged (codes "seen") (pos 1) seen
