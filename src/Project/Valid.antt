-- ===== src/Project/Valid.antt =====
-- What a valid project is, and that `Validate` decides it (internal/project/project.go).
use opensource_project_intel.Base.{
  ℕ, suc, ◌+◌, ◌≡◌, ap, ◌↔◌, ◌⊎◌, inl, inr, true, false, List, [], ◌∷◌, ◌++◌, ◌||◌, map,
  if◌then◌else◌, ◌==◌, arith, nat_eq,
}
use opensource_project_intel.Base.Int.{ℤ, pos, ◌<ℤ◌, int_eq, int_beq_iff}
use opensource_project_intel.Base.Lists.{All, contains}
use opensource_project_intel.Base.Result.{ok, err, is_ok, Result-cases}
use opensource_project_intel.Base.Text.{Text, text_eq, is_blank, to_lower}
use opensource_project_intel.Base.Distinct.{IsDistinct, IsFresh, IsFresh-cons, IsFresh-nil}
use opensource_project_intel.Project.{
  deleted, primary, conflict, Role_eq, State_eq, Repository, Project, malformed, scan, valid_state,
  valid_role, validate,
}

-- The URLs as `Validate` compares them.
abbrev pub lowered : (ℕ → ℕ) → List Repository → List Text
lowered table = map λ r. to_lower table r.canonical_url

abbrev pub count_primary : List Repository → ℕ
count_primary [] = 0
count_primary (r ∷ rs) = (if r.role == primary then 1 else 0) + count_primary rs

pub record IsWellFormed (project_id : ℤ) (r : Repository) : Type 0 where
  pub identified : pos 0 <ℤ r.id
  pub owned : r.project_id ≡ project_id
  pub known_role : valid_role r.role ≡ true
  pub located : is_blank r.canonical_url ≡ false

pub record IsValid (table : ℕ → ℕ) (p : Project) : Type 0 where
  pub identified : pos 0 <ℤ p.id
  pub housed : pos 0 <ℤ p.workspace_id
  pub named : is_blank p.name ≡ false
  pub addressed : is_blank p.slug ≡ false
  pub versioned : pos 0 <ℤ p.version
  pub known_state : valid_state p.state ≡ true
  pub well_formed : All (IsWellFormed p.id) p.repositories
  pub distinct : IsDistinct (lowered table p.repositories)
  pub one_primary : (p.state ≡ deleted) ⊎ (count_primary p.repositories ≡ 1)

pub malformed_iff : (id : ℤ) (r : Repository) → (malformed id r ≡ false) ↔ IsWellFormed id r
unfolding malformed
malformed_iff id r = ground (arith, int_beq_iff r.project_id id)

scan_sound :
    (table : ℕ → ℕ) (id : ℤ) (seen : List Text) (n k : ℕ) (rs : List Repository)
    → scan table id seen n rs ≡ ok k
    → All (IsWellFormed id) rs
      × IsFresh seen (lowered table rs)
      × IsDistinct (lowered table rs)
      × (k ≡ n + count_primary rs)
unfolding scan
scan_sound table id seen n k [] h = ground arith
scan_sound table id seen n k (r ∷ rs) h = ground (
  arith,
  malformed_iff id r,
  scan_sound table id (to_lower table r.canonical_url ∷ seen)
      (if r.role == primary then suc n else n) k rs,
  IsFresh-cons (to_lower table r.canonical_url) seen (lowered table rs),
)

scan_complete :
    (table : ℕ → ℕ) (id : ℤ) (seen : List Text) (n : ℕ) (rs : List Repository)
    → All (IsWellFormed id) rs
    → IsFresh seen (lowered table rs)
    → IsDistinct (lowered table rs)
    → scan table id seen n rs ≡ ok (n + count_primary rs)
unfolding scan
scan_complete table id seen n [] w f d = ground arith
scan_complete table id seen n (r ∷ rs) w f d = ground (
  arith,
  malformed_iff id r,
  scan_complete table id (to_lower table r.canonical_url ∷ seen)
      (if r.role == primary then suc n else n) rs w.1,
  IsFresh-cons (to_lower table r.canonical_url) seen (lowered table rs),
)

validate_sound : (table : ℕ → ℕ) (p : Project) → is_ok (validate table p) ≡ true → IsValid table p
unfolding validate
validate_sound table p h = elim (Result-cases (scan table p.id [] 0 p.repositories)) [
  | inl (k, e) ↦ ground (arith, scan_sound table p.id [] 0 k p.repositories e)
  | inr (x, e) ↦ absurd (ground arith)
]

-- A valid project passes.
pub validate_complete : (table : ℕ → ℕ) (p : Project) → IsValid table p → validate table p ≡ ok tt
unfolding validate
validate_complete table p v = ground (
  arith,
  scan_complete table p.id [] 0 p.repositories v.well_formed
      (IsFresh-nil (lowered table p.repositories)) v.distinct,
)

-- A URL that is lowered to one before it is a conflict.
scan_repeated :
    (table : ℕ → ℕ) (id : ℤ) (seen : List Text) (n : ℕ) (rs : List Repository) (r : Repository)
    → All (IsWellFormed id) rs
    → IsWellFormed id r
    → (contains seen (to_lower table r.canonical_url)
        || contains (lowered table rs) (to_lower table r.canonical_url))
      ≡ true
    → scan table id seen n (rs ++ r ∷ []) ≡ err conflict
unfolding scan
scan_repeated table id seen n [] r w v h = ground (arith, malformed_iff id r)
scan_repeated table id seen n (x ∷ xs) r w v h = ground (
  arith,
  malformed_iff id x,
  scan_repeated table id (to_lower table x.canonical_url ∷ seen)
      (if x.role == primary then suc n else n) xs r w.1 v,
)

pub validate_repeated :
    (table : ℕ → ℕ) (p : Project) (rs : List Repository) (r : Repository)
    → pos 0 <ℤ p.id
    → pos 0 <ℤ p.workspace_id
    → is_blank p.name ≡ false
    → is_blank p.slug ≡ false
    → pos 0 <ℤ p.version
    → valid_state p.state ≡ true
    → p.repositories ≡ rs ++ r ∷ []
    → All (IsWellFormed p.id) rs
    → IsWellFormed p.id r
    → contains (lowered table rs) (to_lower table r.canonical_url) ≡ true
    → validate table p ≡ err conflict
unfolding validate
validate_repeated table p rs r i h n a v k e w l c =
    ground (arith, scan_repeated table p.id [] 0 rs r w l)

-- `Validate` returns no error exactly for a valid project: positive identifiers and version, a name
-- and a slug, a known state, well-formed repositories with distinct lowered URLs, and exactly one
-- primary among them unless the project is deleted.
pub validate_iff :
    (table : ℕ → ℕ) (p : Project) → (is_ok (validate table p) ≡ true) ↔ IsValid table p
validate_iff table p = (validate_sound table p, λ v. ap is_ok (validate_complete table p v))
