-- ===== src/Project/Examples.antt =====
-- The theorems about projects at concrete inputs.
use opensource_project_intel.Base.{
  ℕ, ltb, false, ◌+◌, ◌*◌, ◌≡◌, refl, ap, ◌≢◌, ◌↔◌, ◌⊎◌, inr, Bool, true, none, some, [], ◌∷◌,
  arith,
}
use opensource_project_intel.Base.Int.{ℤ, pos, inc64, ◌≤ℤ◌, ◌<ℤ◌}
use opensource_project_intel.Base.Lists.{contains}
use opensource_project_intel.Base.Result.{ok, err, is_ok}
use opensource_project_intel.Base.Text.{
  Text, codes, text_eq, text_beq, is_blank, byte_length, to_lower,
}
use opensource_project_intel.Project.{
  State-discrete, Role-discrete, active, archived, deleted, primary, other, conflict, Repository,
  Project, new, validate, transition, add_repository, find_repository, remove_repository,
  valid_role, has_url, read_only,
}
use opensource_project_intel.Project.History.{
  HistoryRange, day, day_length, add_days, validate_history_range,
}
use opensource_project_intel.Project.Ranges.{longest, validate_history_range_within}
use opensource_project_intel.Project.Slugs.{slug, matches_from, slug_twice}
use opensource_project_intel.Project.Valid.{IsValid, lowered, validate_iff}
use opensource_project_intel.Project.Lifecycle.{transition-IsValid}
use opensource_project_intel.Project.Repositories.{added}
use opensource_project_intel.Project.Primary.{add_repository-IsValid}
use opensource_project_intel.Project.Removal.{without, remove_repository-IsValid}
use opensource_project_intel.Project.Association.{
  Association, Correction, linked, corrected, correct, already, bad_correction, reassigns,
  constrain,
}

-- No letter outside ASCII is changed, and folding compares lowered texts.
abbrev table : ℕ → ℕ
table c = c

abbrev equal_fold : Text → Text → Bool
equal_fold s t = text_beq (to_lower table s) (to_lower table t)

abbrev main : Repository
main = record {
  id = pos 1;
  project_id = pos 7;
  provider = codes "github";
  canonical_url = codes "https://h/a";
  role = primary;
  version = pos 1;
}

abbrev docs : Repository
docs = record main { id = pos 2; canonical_url = codes "https://h/b"; role = other }

abbrev tool : Repository
tool = record main { id = pos 3; canonical_url = codes "https://h/C"; version = pos 0 }

abbrev sample : Project
sample = record {
  id = pos 7;
  workspace_id = pos 1;
  name = codes "antler";
  slug = codes "antler";
  description = [];
  state = active;
  version = pos 4;
  repositories = main ∷ docs ∷ [];
  sources = [];
  deleted_at = none;
}

new-main :
    new (pos 7) (pos 1) (codes " x ") (codes "x") main
    ≡ ok (record sample {
      name = codes "x";
      slug = codes "x";
      version = pos 1;
      repositories = main ∷ [];
    })
unfolding new is_blank Role-discrete
new-main = refl

sample-validates : validate table sample ≡ ok tt
unfolding validate is_blank to_lower Role-discrete State-discrete
sample-validates = refl

validate_iff_example : (is_ok (validate table sample) ≡ true) ↔ IsValid table sample
validate_iff_example = validate_iff table sample

sample-IsValid : IsValid table sample
sample-IsValid = (validate_iff table sample).0 (ap is_ok sample-validates)

abbrev archived_sample : Project
archived_sample = record sample { state = archived; version = pos 5 }

archives : transition sample archived (pos 4) true (pos 900) ≡ ok archived_sample
unfolding transition inc64 State-discrete
archives = refl

transition-IsValid_example :
    IsValid table archived_sample
    × (archived_sample.state ≡ archived)
    × ((archived ≢ deleted)
        ⊎ ((archived_sample.repositories ≡ [])
            × (archived_sample.sources ≡ [])
            × (archived_sample.deleted_at ≡ some (pos 900))))
transition-IsValid_example =
    transition-IsValid table sample archived (pos 4) true (pos 900) sample-IsValid (omega arith)
      archives

add_repository-IsValid_example :
    ((contains (lowered table sample.repositories) (to_lower table tool.canonical_url) ≡ false)
      × (add_repository table equal_fold sample tool (pos 3) ≡ ok (added sample tool))
      × IsValid table (added sample tool))
    ⊎ ((contains (lowered table sample.repositories) (to_lower table tool.canonical_url) ≡ true)
        × (add_repository table equal_fold sample tool (pos 3) ≡ err conflict))
unfolding valid_role is_blank to_lower has_url read_only
add_repository-IsValid_example =
    add_repository-IsValid table equal_fold sample tool (pos 3) sample-IsValid (omega arith) refl
      (inr (omega arith))
      (record { identified = omega arith; owned = refl; known_role = refl; located = refl }) refl

remove_repository-IsValid_example :
    ((find_repository (pos 2) sample.repositories ≡ none)
      × (remove_repository table sample (pos 2) ≡ ok sample))
    ⊎ ((found : Repository) × (find_repository (pos 2) sample.repositories ≡ some found)
        × (((found.role ≡ primary) × (remove_repository table sample (pos 2) ≡ err conflict))
            ⊎ ((remove_repository table sample (pos 2) ≡ ok (without sample found))
                × IsValid table (without sample found))))
unfolding read_only
remove_repository-IsValid_example =
    remove_repository-IsValid table sample (pos 2) sample-IsValid (omega arith) refl

abbrev link : Association
link = record {
  id = pos 1;
  source_id = pos 2;
  project_id = pos 7;
  method = codes "url";
  confidence = 0;
  evidence = [];
  decision_version = codes "d1";
  status = linked;
  constraint = none;
  version = pos 1;
}

abbrev move : Correction
move = record {
  action = codes "reassign";
  project_id = pos 8;
  reason = codes "fork";
  actor_id = pos 9;
  at = pos 100;
}

abbrev moved_link : Association
moved_link = record link {
  project_id = pos 8;
  status = corrected;
  constraint = some move;
  version = pos 2;
}

moves : correct link move ≡ ok (moved_link, true)
unfolding correct already bad_correction reassigns constrain is_blank inc64
moves = refl

-- The first ten days of the year 2, asked for in the fifth of them.
abbrev year_two : ℕ → ℤ
year_two n = pos (day_length * (365 + n))

abbrev accepted : HistoryRange
accepted = record { from = year_two 0; to = year_two 5 }

history-accepted :
    validate_history_range (year_two 0) (year_two 10) (year_two 4) (pos 30) ≡ ok accepted
unfolding validate_history_range
history-accepted = refl

validate_history_range_within_example :
    (accepted.from ≡ day (year_two 0))
    × (accepted.from <ℤ accepted.to)
    × (accepted.to ≤ℤ day (year_two 10))
    × (accepted.to ≤ℤ add_days (day (year_two 4)) (pos 1))
    × (pos 30 ≤ℤ pos 0 ⊎ pos longest ≤ℤ pos 30 ⊎ accepted.to ≤ℤ add_days accepted.from (pos 30))
validate_history_range_within_example =
    validate_history_range_within (year_two 0) (year_two 10) (year_two 4) (pos 30) history-accepted

spaced-slug : slug (λ c. c) (codes " Open Source-2 ") ≡ ok (codes "open-source-2")
unfolding slug
spaced-slug = refl

slug_twice_example :
    (matches_from false (codes "open-source-2") ≡ true)
    × (ltb 100 (byte_length (codes "open-source-2")) ≡ false)
    × (slug (λ c. c) (codes "open-source-2") ≡ ok (codes "open-source-2"))
slug_twice_example =
    slug_twice (λ c. c) (codes " Open Source-2 ") (codes "open-source-2") spaced-slug
