-- ===== src/Policy/Metric.antt =====
-- The catalog of metrics and the windows of internal/metric/metric.go. A definition has the fields
-- that a policy reads; `in_utc` says whether the three instants of a window have the location UTC.
use opensource_project_intel.Base.{
  ℕ, Bool, ◌||◌, not, Option, none, some, List, [], ◌∷◌, if◌then◌else◌, ◌==◌, Eq, eq_of_discrete,
}
use native.Mathlib.Decide.{ℕ_discrete}
use opensource_project_intel.Base.Int.{ℤ, pos, ltb_ℤ, int_eq}
use opensource_project_intel.Base.Text.{Text, codes, text_eq}

pub data Status : Type 0 where
  available unknown not_applicable insufficient_data incomparable stale unavailable : Status
  other_status : Text → Status

unfoldable pub Status-discrete : Discrete Status
Status-discrete = hlevel ℕ_discrete

instance abbrev pub Status_eq : Eq Status
Status_eq = eq_of_discrete Status-discrete

pub record Definition : Type 0 where
  pub name : Text
  pub version : Text

abbrev v1 : Text → Definition
v1 name = record { name = name; version = codes "v1" }

abbrev pub catalog : List Definition
catalog =
    v1 (codes "release_frequency")
    ∷ v1 (codes "active_contributors")
    ∷ v1 (codes "issues_opened_closed")
    ∷ v1 (codes "median_issue_first_response")
    ∷ v1 (codes "median_pr_merge_time")
    ∷ v1 (codes "backlog_change")
    ∷ v1 (codes "top_three_author_share")
    ∷ []

abbrev pub named : Text → List Definition → Option Definition
named name [] = none
named name (d ∷ ds) = if d.name == name then some d else named name ds

unfoldable pub definition_by_name : Text → Option Definition
definition_by_name name = named name catalog

pub record Window : Type 0 where
  pub from : ℤ
  pub to : ℤ
  pub cutoff : ℤ
  pub in_utc : Bool

-- Whether `Window.Validate` returns no error.
unfoldable pub valid_window : Window → Bool
valid_window w = not (
    w.from == pos 0
    || w.to == pos 0
    || w.cutoff == pos 0
    || not (ltb_ℤ w.from w.to)
    || ltb_ℤ w.cutoff w.to
    || not w.in_utc)

pub record Coverage : Type 0 where
  pub eligible : ℤ
  pub observed : ℤ
  pub ratio : ℕ
  pub note : Text
