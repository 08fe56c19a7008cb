-- ===== src/Access/Scopes.antt =====
-- The rules on a service account: `ValidateServiceAccount` of internal/access/member.go.
use opensource_project_intel.Base.{
  ◌≤◌, ◌≡◌, ◌≢◌, ◌↔◌, ◌⊎◌, true, false, Option, some, List, [], ◌∷◌, arith,
}
use opensource_project_intel.Base.Lists.{contains, All}
use opensource_project_intel.Base.Result.{is_ok}
use opensource_project_intel.Base.Text.{Text, codes, text_eq, is_blank, byte_length}
use opensource_project_intel.Base.Distinct.{IsDistinct, IsFresh, IsFresh-cons, IsFresh-nil}
use opensource_project_intel.Access.{
  viewer, analyst, active, suspended, Uri, ServiceAccount, check_scopes, validate_service_account,
}

check_scopes_iff :
    (allowed seen ss : List Text)
    → (is_ok (check_scopes allowed seen ss) ≡ true)
      ↔ (All (λ s. contains allowed s ≡ true) ss × IsFresh seen ss × IsDistinct ss)
unfolding check_scopes
check_scopes_iff allowed seen [] = ground arith
check_scopes_iff allowed seen (s ∷ ss) =
    ground (arith, check_scopes_iff allowed (s ∷ seen) ss, IsFresh-cons s seen ss)

-- What a service account must be: an identity with an HTTPS issuer and a subject of at most 255 bytes, a
-- name, a role that is not admin, a status that is active or suspended, and distinct allowed scopes.
pub record IsAcceptable (parse_uri : Text → Option Uri) (account : ServiceAccount)
    (allowed : List Text) : Type 0 where
  pub issuer :
      (uri : Uri) × (parse_uri account.issuer ≡ some uri)
      × (uri.scheme ≡ codes "https")
      × (uri.host ≢ [])
  pub subject :
      (is_blank account.external_subject ≡ false) × (byte_length account.external_subject ≤ 255)
  pub named : is_blank account.name ≡ false
  pub role : (account.role ≡ viewer) ⊎ (account.role ≡ analyst)
  pub status : (account.status ≡ active) ⊎ (account.status ≡ suspended)
  pub scopes_allowed : All (λ s. contains allowed s ≡ true) account.scopes
  pub scopes_distinct : IsDistinct account.scopes

-- `ValidateServiceAccount` returns no error exactly for an acceptable account.
pub validate_service_account_iff :
    (parse_uri : Text → Option Uri) (account : ServiceAccount) (allowed : List Text)
    → (is_ok (validate_service_account parse_uri account allowed) ≡ true)
      ↔ IsAcceptable parse_uri account allowed
unfolding validate_service_account
validate_service_account_iff parse_uri account allowed = (
  λ h. ground (arith, check_scopes_iff allowed [] account.scopes),
  λ h. ground (arith, check_scopes_iff allowed [] account.scopes, IsFresh-nil account.scopes),
)
