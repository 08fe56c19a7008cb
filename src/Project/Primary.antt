-- ===== src/Project/Primary.antt =====
-- Every change of a project's repositories keeps it valid, with exactly one primary
-- (internal/project/project.go).
use opensource_project_intel.Base.{
  ℕ, ◌+◌, ◌≡◌, refl, sym, subst, ◌≢◌, ◌⊎◌, inl, inr, Bool, true, false, some, List, [], ◌∷◌,
  if◌then◌else◌, ◌==◌, arith, Bool-cases,
}
use opensource_project_intel.Base.Int.{
  ℤ, pos, ◌<ℤ◌, ◌≤ℤ◌, int_eq, inc64, int_beq_iff, max_int64, inc64_parts,
}
use opensource_project_intel.Base.Lists.{All, contains, length}
use opensource_project_intel.Base.Result.{ok, err}
use opensource_project_intel.Base.Text.{Text, text_eq, to_lower}
use opensource_project_intel.Project.{
  deleted, Role, primary, core, Role_eq, State_eq, conflict, Repository, Project, valid_role,
  read_only, demote, has_url, add_repository, find_repository, set_role, change_repository_role,
}
use opensource_project_intel.Project.Valid.{
  IsValid, IsWellFormed, lowered, count_primary, malformed_iff, validate_complete,
}
use opensource_project_intel.Project.Repositories.{
  demote-count_primary, demote-lowered, demote-IsWellFormed, kept, added, added-IsValid,
  added-conflict,
}

-- A valid project that is not read-only and below its limit takes a well-formed repository of a new
-- URL: `AddRepository` returns the project with it at the end, the former primary a core repository
-- if the new one is primary, and the result is valid, unless the URL, which folding told from all the
-- others, is lowered to the same text as one of them: then it returns a conflict. This takes it that
-- the version is below the largest int64; folding may be any test on texts.
pub add_repository-IsValid :
    (table : ℕ → ℕ) (equal_fold : Text → Text → Bool) (p : Project) (r : Repository) (limit : ℤ)
    → IsValid table p
    → p.version <ℤ pos max_int64
    → read_only p.state ≡ false
    → (limit ≤ℤ pos 0) ⊎ (pos (length p.repositories) <ℤ limit)
    → IsWellFormed p.id r
    → has_url equal_fold r.canonical_url p.repositories ≡ false
    → ((contains (lowered table p.repositories) (to_lower table r.canonical_url) ≡ false)
        × (add_repository table equal_fold p r limit ≡ ok (added p r))
        × IsValid table (added p r))
      ⊎ ((contains (lowered table p.repositories) (to_lower table r.canonical_url) ≡ true)
          × (add_repository table equal_fold p r limit ≡ err conflict))
unfolding add_repository read_only
add_repository-IsValid table equal_fold p r limit v b o l w h =
    elim (Bool-cases (contains (lowered table p.repositories) (to_lower table r.canonical_url))) [
      | inl held ↦
          inr (held, (ground (arith, added-conflict table p r v b w held, malformed_iff p.id r)))
      | inr free ↦
          let d : p.state ≢ deleted = (ground arith) in
          let valid = added-IsValid table p r v b d w free in
          inl (
            free,
            (ground (arith, validate_complete table (added p r) valid, malformed_iff p.id r)),
            valid,
          )
    ]

module _ (id : ℤ) (role : Role) where
  set_role-lowered :
      (table : ℕ → ℕ) (rs : List Repository)
      → lowered table (set_role id role rs) ≡ lowered table rs
  unfolding set_role
  set_role-lowered table [] = refl
  set_role-lowered table (r ∷ rs) = (ground (arith, set_role-lowered table rs))

  set_role-IsWellFormed :
      (owner : ℤ) (rs : List Repository)
      → valid_role role ≡ true
      → All (IsWellFormed owner) rs
      → All (IsWellFormed owner) (set_role id role rs)
  unfolding set_role
  set_role-IsWellFormed owner [] k w = tt
  set_role-IsWellFormed owner (r ∷ rs) k w = (ground (arith, set_role-IsWellFormed owner rs k))

  set_role-count_primary :
      (rs : List Repository) (found : Repository)
      → find_repository id rs ≡ some found
      → count_primary (set_role id role rs) + (if found.role == primary then 1 else 0)
        ≡ count_primary rs + (if role == primary then 1 else 0)
  unfolding set_role find_repository
  set_role-count_primary [] found h = cc
  set_role-count_primary (r ∷ rs) found h = (ground (arith, set_role-count_primary rs found))

abbrev demoted : Repository → Repository
demoted r = if r.role == primary then record r { role = core; version = inc64 r.version } else r

find_repository-demote :
    (id : ℤ) (rs : List Repository) (found : Repository)
    → find_repository id rs ≡ some found
    → find_repository id (demote rs) ≡ some (demoted found)
unfolding find_repository demote
find_repository-demote id [] found h = cc
find_repository-demote id (r ∷ rs) found h = (ground (arith, find_repository-demote id rs found))

pub find_repository-id :
    (id : ℤ) (rs : List Repository) (found : Repository)
    → find_repository id rs ≡ some found
    → found.id ≡ id
unfolding find_repository
find_repository-id id [] found h = cc
find_repository-id id (r ∷ rs) found h =
    (ground (arith, find_repository-id id rs found, int_beq_iff r.id id))

-- The project with a repository's role changed.
abbrev pub changed : Project → Repository → Role → Project
changed p found role = record p {
  repositories = set_role found.id role (kept role p.repositories);
  version = inc64 p.version;
}

changed-count_primary :
    (rs : List Repository) (found : Repository) (role : Role)
    → find_repository found.id rs ≡ some found
    → (role ≡ primary) ⊎ (found.role ≢ primary)
    → count_primary rs ≡ 1
    → count_primary (set_role found.id role (kept role rs)) ≡ 1
changed-count_primary rs found role e c n =
    (ground (
      arith,
      set_role-count_primary found.id role rs found e,
      set_role-count_primary found.id role (demote rs) (demoted found)
          (find_repository-demote found.id rs found e),
      demote-count_primary rs,
    ))

changed-IsValid :
    (table : ℕ → ℕ) (p : Project) (found : Repository) (role : Role)
    → IsValid table p
    → p.version <ℤ pos max_int64
    → p.state ≢ deleted
    → valid_role role ≡ true
    → find_repository found.id p.repositories ≡ some found
    → (role ≡ primary) ⊎ (found.role ≢ primary)
    → IsValid table (changed p found role)
changed-IsValid table p found role v b d k e c = record {
  identified = v.identified;
  housed = v.housed;
  named = v.named;
  addressed = v.addressed;
  versioned = (ground (arith, inc64_parts p.version));
  known_state = v.known_state;
  well_formed =
      set_role-IsWellFormed found.id role p.id (kept role p.repositories) k
        (ground (arith, demote-IsWellFormed p.id p.repositories));
  distinct =
      (ground (
        arith,
        set_role-lowered found.id role table (kept role p.repositories),
        demote-lowered table p.repositories,
      ));
  one_primary =
      inr (ground (arith, v.one_primary, changed-count_primary p.repositories found role e c));
}

-- In a valid project that is not read-only, a repository that is found takes another known role, and
-- the result is valid: as primary it is the only one, the former primary having become a core
-- repository; the primary itself cannot be given another role. The version is below the largest int64.
pub change_repository_role-IsValid :
    (table : ℕ → ℕ) (p : Project) (id : ℤ) (role : Role) (found : Repository)
    → IsValid table p
    → p.version <ℤ pos max_int64
    → read_only p.state ≡ false
    → valid_role role ≡ true
    → find_repository id p.repositories ≡ some found
    → found.role ≢ role
    → ((found.role ≡ primary) × (change_repository_role table p id role ≡ err conflict))
      ⊎ ((change_repository_role table p id role ≡ ok (changed p found role))
          × IsValid table (changed p found role))
unfolding change_repository_role read_only
change_repository_role-IsValid table p id role found v b o k e n =
    elim (Bool-cases (found.role == primary)) [
      | inl held ↦ inl (ground arith)
      | inr free ↦
          let same : found.id ≡ id = find_repository-id id p.repositories found e in
          let valid : IsValid table (changed p found role) =
            changed-IsValid table p found role v b (ground arith) k
              (subst (λ i. find_repository i p.repositories ≡ some found) (sym same) e)
              (ground arith) in
          inr ((ground (arith, validate_complete table (changed p found role) valid)), valid)
    ]
