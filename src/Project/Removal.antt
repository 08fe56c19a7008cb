-- ===== src/Project/Removal.antt =====
-- Removing a repository keeps a project valid, with exactly one primary
-- (internal/project/project.go).
use opensource_project_intel.Base.{
  ℕ, ◌+◌, ◌≡◌, sym, subst, ◌≢◌, ◌⊎◌, inl, inr, false, none, some, List, [], ◌∷◌, if◌then◌else◌,
  ◌==◌, arith, Option-cases, Bool-cases,
}
use opensource_project_intel.Base.Int.{ℤ, pos, ◌<ℤ◌, int_eq, inc64, max_int64, inc64_parts}
use opensource_project_intel.Base.Lists.{All, contains}
use opensource_project_intel.Base.Result.{ok, err}
use opensource_project_intel.Base.Text.{Text, text_eq, to_lower}
use opensource_project_intel.Base.Distinct.{IsDistinct}
use opensource_project_intel.Project.{
  deleted, primary, Role_eq, State_eq, conflict, Repository, Project, read_only, find_repository,
  remove_first, remove_repository,
}
use opensource_project_intel.Project.Valid.{
  IsValid, IsWellFormed, lowered, count_primary, validate_complete,
}
use opensource_project_intel.Project.Primary.{find_repository-id}

remove_first-lowered :
    (table : ℕ → ℕ) (id : ℤ) (u : Text) (rs : List Repository)
    → contains (lowered table rs) u ≡ false
    → contains (lowered table (remove_first id rs)) u ≡ false
unfolding remove_first
remove_first-lowered table id u [] h = h
remove_first-lowered table id u (r ∷ rs) h = ground (arith, remove_first-lowered table id u rs)

remove_first-IsDistinct :
    (table : ℕ → ℕ) (id : ℤ) (rs : List Repository)
    → IsDistinct (lowered table rs)
    → IsDistinct (lowered table (remove_first id rs))
unfolding remove_first
remove_first-IsDistinct table id [] d = d
remove_first-IsDistinct table id (r ∷ rs) d = ground (
  arith,
  remove_first-IsDistinct table id rs,
  remove_first-lowered table id (to_lower table r.canonical_url) rs,
)

remove_first-IsWellFormed :
    (owner id : ℤ) (rs : List Repository)
    → All (IsWellFormed owner) rs
    → All (IsWellFormed owner) (remove_first id rs)
unfolding remove_first
remove_first-IsWellFormed owner id [] w = w
remove_first-IsWellFormed owner id (r ∷ rs) w =
    ground (arith, remove_first-IsWellFormed owner id rs)

remove_first-count_primary :
    (id : ℤ) (rs : List Repository) (found : Repository)
    → find_repository id rs ≡ some found
    → count_primary (remove_first id rs) + (if found.role == primary then 1 else 0)
      ≡ count_primary rs
unfolding remove_first find_repository
remove_first-count_primary id [] found h = cc
remove_first-count_primary id (r ∷ rs) found h =
    ground (arith, remove_first-count_primary id rs found)

-- The project with a repository removed.
abbrev pub without : Project → Repository → Project
without p found = record p {
  repositories = remove_first found.id p.repositories;
  version = inc64 p.version;
}

without-IsValid :
    (table : ℕ → ℕ) (p : Project) (found : Repository)
    → IsValid table p
    → p.version <ℤ pos max_int64
    → p.state ≢ deleted
    → find_repository found.id p.repositories ≡ some found
    → found.role ≢ primary
    → IsValid table (without p found)
without-IsValid table p found v b d e c = record {
  identified = v.identified;
  housed = v.housed;
  named = v.named;
  addressed = v.addressed;
  versioned = ground (arith, inc64_parts p.version);
  known_state = v.known_state;
  well_formed = remove_first-IsWellFormed p.id found.id p.repositories v.well_formed;
  distinct = remove_first-IsDistinct table found.id p.repositories v.distinct;
  one_primary =
      inr
        (ground (arith, v.one_primary, remove_first-count_primary found.id p.repositories found e));
}

-- In a valid project that is not read-only, `RemoveRepository` refuses the primary, removes any
-- other repository that is found and leaves a valid project, and does nothing for an unknown one.
-- The version is below the largest int64.
pub remove_repository-IsValid :
    (table : ℕ → ℕ) (p : Project) (id : ℤ)
    → IsValid table p
    → p.version <ℤ pos max_int64
    → read_only p.state ≡ false
    → ((find_repository id p.repositories ≡ none) × (remove_repository table p id ≡ ok p))
      ⊎ ((found : Repository) × (find_repository id p.repositories ≡ some found)
          × (((found.role ≡ primary) × (remove_repository table p id ≡ err conflict))
              ⊎ ((remove_repository table p id ≡ ok (without p found))
                  × IsValid table (without p found))))
unfolding remove_repository read_only
remove_repository-IsValid table p id v b o =
    elim (Option-cases (find_repository id p.repositories)) [
      | inl absent ↦ inl (absent, ground arith)
      | inr (found, e) ↦ inr (
        found,
        e,
        elim (Bool-cases (found.role == primary)) [
          | inl held ↦ inl (ground arith)
          | inr free ↦
              let same : found.id ≡ id = find_repository-id id p.repositories found e in
              let valid : IsValid table (without p found) =
                without-IsValid table p found v b (ground arith)
                  (subst (λ i. find_repository i p.repositories ≡ some found) (sym same) e)
                  (ground arith) in
              inr (ground (arith, validate_complete table (without p found) valid), valid)
        ],
      )
    ]
