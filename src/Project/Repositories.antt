-- ===== src/Project/Repositories.antt =====
-- Adding, re-roling and removing repositories keeps exactly one primary
-- (internal/project/project.go).
use opensource_project_intel.Base.{
  ℕ, ◌+◌, ◌≡◌, refl, ◌≢◌, inr, true, false, ◌||◌, List, [], ◌∷◌, ◌++◌, if◌then◌else◌, ◌==◌, arith,
}
use opensource_project_intel.Base.Int.{ℤ, pos, ◌<ℤ◌, int_eq, inc64, max_int64, inc64_parts}
use opensource_project_intel.Base.Lists.{All, All-append, contains}
use opensource_project_intel.Base.Text.{Text, text_eq, text_beq_iff, to_lower}
use opensource_project_intel.Base.Distinct.{IsDistinct}
use opensource_project_intel.Base.Result.{err}
use opensource_project_intel.Project.{
  conflict, validate, deleted, Role, primary, Role_eq, State_eq, Repository, Project, valid_role,
  demote, at_least_one,
}
use opensource_project_intel.Project.Valid.{
  validate_repeated, IsValid, IsWellFormed, lowered, count_primary,
}

-- `demote` leaves no primary, and changes nothing but roles and versions.
pub demote-count_primary : (rs : List Repository) → count_primary (demote rs) ≡ 0
unfolding demote
demote-count_primary [] = refl
demote-count_primary (r ∷ rs) = ground (arith, demote-count_primary rs)

pub demote-lowered :
    (table : ℕ → ℕ) (rs : List Repository) → lowered table (demote rs) ≡ lowered table rs
unfolding demote
demote-lowered table [] = refl
demote-lowered table (r ∷ rs) = ground (arith, demote-lowered table rs)

pub demote-IsWellFormed :
    (id : ℤ) (rs : List Repository) → All (IsWellFormed id) rs → All (IsWellFormed id) (demote rs)
unfolding demote valid_role
demote-IsWellFormed id [] w = tt
demote-IsWellFormed id (r ∷ rs) w = ground (arith, demote-IsWellFormed id rs)

count_primary-append :
    (rs ss : List Repository) → count_primary (rs ++ ss) ≡ count_primary rs + count_primary ss
count_primary-append [] ss = omega arith
count_primary-append (r ∷ rs) ss = omega (arith, count_primary-append rs ss)

contains-snoc :
    (table : ℕ → ℕ) (rs : List Repository) (r : Repository) (u : Text)
    → contains (lowered table (rs ++ r ∷ [])) u
      ≡ (contains (lowered table rs) u || to_lower table r.canonical_url == u)
contains-snoc table [] r u = ground arith
contains-snoc table (x ∷ rs) r u = ground (arith, contains-snoc table rs r u)

-- A URL that is lowered to none of the lowered URLs leaves them distinct.
IsDistinct-snoc :
    (table : ℕ → ℕ) (rs : List Repository) (r : Repository)
    → contains (lowered table rs) (to_lower table r.canonical_url) ≡ false
    → IsDistinct (lowered table rs)
    → IsDistinct (lowered table (rs ++ r ∷ []))
IsDistinct-snoc table [] r h d = (refl, tt)
IsDistinct-snoc table (x ∷ rs) r h d = ground (
  arith,
  contains-snoc table rs r (to_lower table x.canonical_url),
  text_beq_iff (to_lower table r.canonical_url) (to_lower table x.canonical_url),
  text_beq_iff (to_lower table x.canonical_url) (to_lower table r.canonical_url),
  IsDistinct-snoc table rs r,
)

-- The repositories that stay beside a new one or a new primary.
abbrev pub kept : Role → List Repository → List Repository
kept role rs = if role == primary then demote rs else rs

-- The project with a repository added.
abbrev pub added : Project → Repository → Project
added p r = record p {
  repositories = kept r.role p.repositories ++ record r { version = at_least_one r.version } ∷ [];
  version = inc64 p.version;
}

pub added-IsValid :
    (table : ℕ → ℕ) (p : Project) (r : Repository)
    → IsValid table p
    → p.version <ℤ pos max_int64
    → p.state ≢ deleted
    → IsWellFormed p.id r
    → contains (lowered table p.repositories) (to_lower table r.canonical_url) ≡ false
    → IsValid table (added p r)
added-IsValid table p r v b d w h = record {
  identified = v.identified;
  housed = v.housed;
  named = v.named;
  addressed = v.addressed;
  versioned = ground (arith, inc64_parts p.version);
  known_state = v.known_state;
  well_formed =
      All-append (IsWellFormed p.id) (kept r.role p.repositories)
        (record r { version = at_least_one r.version } ∷ []) ground
        (arith, demote-IsWellFormed p.id p.repositories) ground arith;
  distinct =
      IsDistinct-snoc table (kept r.role p.repositories)
        (record r { version = at_least_one r.version })
        (ground (arith, demote-lowered table p.repositories))
        (ground (arith, demote-lowered table p.repositories));
  one_primary = inr ground (
    arith,
    v.one_primary,
    count_primary-append (kept r.role p.repositories)
        (record r { version = at_least_one r.version } ∷ []),
    demote-count_primary p.repositories,
  );
}

-- A repository whose lowered URL the project has already cannot be added.
pub added-conflict :
    (table : ℕ → ℕ) (p : Project) (r : Repository)
    → IsValid table p
    → p.version <ℤ pos max_int64
    → IsWellFormed p.id r
    → contains (lowered table p.repositories) (to_lower table r.canonical_url) ≡ true
    → validate table (added p r) ≡ err conflict
added-conflict table p r v b w h =
    validate_repeated table (added p r) (kept r.role p.repositories)
      (record r { version = at_least_one r.version }) v.identified v.housed v.named v.addressed
      (ground (arith, v.versioned, inc64_parts p.version)) v.known_state refl
      (ground (arith, v.well_formed, demote-IsWellFormed p.id p.repositories)) (ground (arith, w))
      (ground (arith, demote-lowered table p.repositories))
