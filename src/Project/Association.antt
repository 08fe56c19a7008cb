-- ===== src/Project/Association.antt =====
-- Associations of sources with projects, and the kinds of a source: internal/project/project.go. A
-- confidence is a float64, here its 64 bits, which nothing reads.
use opensource_project_intel.Base.{
  ℕ, ◌≡◌, refl, Bool, true, false, ◌&&◌, ◌||◌, not, Option, none, some, List, [], ◌∷◌, Bool-cases,
  ◌⊎◌, inl, inr, ap, subst, sym, ◌∙◌, if◌then◌else◌, ◌==◌, arith,
}
use opensource_project_intel.Base.Int.{ℤ, nonpositive, int_eq, int_beq_iff, inc64}
use opensource_project_intel.Base.Lists.{contains}
use opensource_project_intel.Base.Result.{Result, ok, err}
use opensource_project_intel.Base.Text.{Text, codes, text_eq, text_beq_iff, is_blank}
use opensource_project_intel.Project.{Error, invalid}

pub data AssociationStatus : Type 0 where
  linked unresolved corrected : AssociationStatus
  other_association : Text → AssociationStatus

pub record Correction : Type 0 where
  pub action : Text
  pub project_id : ℤ
  pub reason : Text
  pub actor_id : ℤ
  pub at : ℤ

pub record Association : Type 0 where
  pub id : ℤ
  pub source_id : ℤ
  pub project_id : ℤ
  pub method : Text
  pub confidence : ℕ
  pub evidence : List ℤ
  pub decision_version : Text
  pub status : AssociationStatus
  pub constraint : Option Correction
  pub version : ℤ

abbrev pub correction_actions : List Text
correction_actions = codes "split" ∷ codes "reassign" ∷ codes "confirm" ∷ []

-- The constraint asks for the same already.
unfoldable pub already : Option Correction → Correction → Bool
already none correction = false
already (some prior) correction =
    prior.action == correction.action && prior.project_id == correction.project_id

-- The first condition of `Correct`.
unfoldable pub bad_correction : ℤ → Correction → Bool
bad_correction id correction =
    nonpositive id
    || nonpositive correction.actor_id
    || is_blank correction.reason
    || not (contains correction_actions correction.action)

unfoldable pub reassigns : Correction → Bool
reassigns correction = correction.action == codes "reassign"

-- The assignments of `Correct`.
unfoldable pub constrain : Association → Correction → Association
unfolding reassigns
constrain association correction =
    let marked = record association {
      constraint = some correction;
      status = corrected;
      version = inc64 association.version;
    } in
    if reassigns correction then record marked { project_id = correction.project_id } else marked

unfoldable pub correct : Association → Correction → Result Error (Association × Bool)
unfolding already bad_correction reassigns constrain
correct association correction =
    if bad_correction association.id correction
    then err invalid
    else if reassigns correction && nonpositive correction.project_id
    then err invalid
    else if already association.constraint correction
    then ok (association, false)
    else ok (constrain association correction, true)

abbrev pub source_kinds : List Text
source_kinds =
    codes "github"
    ∷ codes "gitlab"
    ∷ codes "gitea"
    ∷ codes "git"
    ∷ codes "npm"
    ∷ codes "nuget"
    ∷ codes "pypi"
    ∷ codes "docs"
    ∷ codes "website"
    ∷ codes "changelog"
    ∷ codes "rss"
    ∷ codes "discussion"
    ∷ codes "advisory"
    ∷ []

unfoldable pub valid_source_kind : Text → Bool
valid_source_kind = contains source_kinds

already_self : (correction : Correction) → already (some correction) correction ≡ true
unfolding already
already_self correction = ground (
  arith,
  text_beq_iff correction.action correction.action,
  int_beq_iff correction.project_id correction.project_id,
)

constrain_lem :
    (association : Association) (correction : Correction)
    → ((constrain association correction).id ≡ association.id)
      × ((constrain association correction).constraint ≡ some correction)
      × ((constrain association correction).status ≡ corrected)
      × ((constrain association correction).version ≡ inc64 association.version)
unfolding constrain
constrain_lem association correction = elim (Bool-cases (reassigns correction)) [
  | inl e ↦ rw e (refl, refl, refl, refl)
  | inr e ↦ rw e (refl, refl, refl, refl)
]

-- The ends of two guards and a test.
abbrev guarded : Bool → Bool → Bool → Association → Association → Result Error (Association × Bool)
guarded bad targetless same kept written =
    if bad
    then err invalid
    else if targetless
    then err invalid
    else if same
    then ok (kept, false)
    else ok (written, true)

guards-cases :
    (bad targetless same : Bool) (kept written : Association) {after : Association} {changed : Bool}
    → guarded bad targetless same kept written ≡ ok (after, changed)
    → (bad ≡ false)
      × (targetless ≡ false)
      × (((same ≡ true) × (kept ≡ after) × (false ≡ changed))
          ⊎ ((written ≡ after) × (true ≡ changed)))
guards-cases true t s x y h = cc
guards-cases false true s x y h = cc
guards-cases false false true x y h = (refl, refl, inl (refl, cc, cc))
guards-cases false false false x y h = (refl, refl, inr (cc, cc))

correct_again :
    (association : Association) (correction : Correction)
    → bad_correction association.id correction ≡ false
    → (reassigns correction && nonpositive correction.project_id) ≡ false
    → already association.constraint correction ≡ true
    → correct association correction ≡ ok (association, false)
unfolding correct
correct_again association correction b r a = rw (b, r, a) refl

-- `Correct` is idempotent: a correction that returns an association, with a flag, gives it again with
-- the flag false. A false flag means that nothing changed; a true one that the correction became
-- the constraint, the status corrected and the version one more.
pub correct_twice :
    (association : Association) (correction : Correction) {after : Association} {changed : Bool}
    → correct association correction ≡ ok (after, changed)
    → (correct after correction ≡ ok (after, false))
      × (changed ≡ false → after ≡ association)
      × (changed ≡ true
          → (after.constraint ≡ some correction)
            × (after.status ≡ corrected)
            × (after.version ≡ inc64 association.version))
unfolding correct
correct_twice association correction {after} {changed} h =
    let (b, r, ends) =
      guards-cases (bad_correction association.id correction)
        (reassigns correction && nonpositive correction.project_id)
        (already association.constraint correction) association (constrain association correction)
        h in
    elim ends [
      | inl (a, e, f) ↦ (
        subst (λ x. correct x correction ≡ ok (x, false)) e
            (correct_again association correction b r a),
        λ c. sym e,
        λ c. cc,
      )
      | inr (e, t) ↦
          let (i, k, s, v) = constrain_lem association correction in
          (
            subst (λ x. correct x correction ≡ ok (x, false)) e
                (correct_again (constrain association correction) correction
                  (ap (λ x. bad_correction x correction) i ∙ b) r
                  (ap (λ x. already x correction) k ∙ already_self correction)),
            (λ c. cc),
            (λ c.
                subst
                  (λ x.
                    (x.constraint ≡ some correction)
                    × (x.status ≡ corrected)
                    × (x.version ≡ inc64 association.version))
                  e (k, s, v)),
          )
    ]
