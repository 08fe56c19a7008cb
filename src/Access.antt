-- ===== src/Access.antt =====
-- Roles, permissions and membership rules: internal/access/access.go and internal/access/member.go.
-- What they take from elsewhere is a parameter of its user: `parse_uri` (url.ParseRequestURI, with
-- the scheme and the host that the code reads) and `load_location` (time.LoadLocation).
pub mod Permissions
pub mod Scopes
pub mod Tokens
pub mod Codecs
mod Examples
mod CodecExamples
use native.Mathlib.Decide.{ℕ_discrete}
use opensource_project_intel.Base.{
  ℕ, zero, suc, ◌+◌, Bool, true, false, ◌&&◌, ◌||◌, not, Option, none, some, List, [], ◌∷◌,
  if◌then◌else◌, ltb, leb, Eq, ◌==◌, eq_of_discrete,
}
use opensource_project_intel.Base.Int.{ℤ, pos, ltb_ℤ, leb_ℤ, int_eq}
use opensource_project_intel.Base.Lists.{contains}
use opensource_project_intel.Base.Result.{Result, ok, err, ◌>>=◌, ◌>>◌, fail_if, is_ok}
use opensource_project_intel.Base.Text.{Text, codes, text_eq, is_blank, byte_length}

-- In each of these, `other` is any string that is none of the constants.
pub data Role : Type 0 where
  viewer analyst admin : Role
  other_role : Text → Role

pub data Status : Type 0 where
  pending active rejected suspended deleted : Status
  other_status : Text → Status

pub data ActorKind : Type 0 where
  member service_account system deleted_actor : ActorKind
  other_kind : Text → ActorKind

pub data Action : Type 0 where
  catalog_read intelligence_read project_write export_write membership_govern : Action
  service_govern audit_read operations_read project_lifecycle policy_govern : Action
  other_action : Text → Action

unfoldable pub Role-discrete : Discrete Role
Role-discrete = hlevel ℕ_discrete

unfoldable pub Status-discrete : Discrete Status
Status-discrete = hlevel ℕ_discrete

unfoldable pub ActorKind-discrete : Discrete ActorKind
ActorKind-discrete = hlevel ℕ_discrete

unfoldable pub Action-discrete : Discrete Action
Action-discrete = hlevel ℕ_discrete

instance abbrev pub Role_eq : Eq Role
Role_eq = eq_of_discrete Role-discrete

instance abbrev pub Status_eq : Eq Status
Status_eq = eq_of_discrete Status-discrete

instance abbrev pub ActorKind_eq : Eq ActorKind
ActorKind_eq = eq_of_discrete ActorKind-discrete

instance abbrev pub Action_eq : Eq Action
Action_eq = eq_of_discrete Action-discrete

pub data Error : Type 0 where
  authentication_required access_pending permission_denied last_admin_required invalid_input : Error
  version_conflict not_found store_failed : Error

pub record Principal : Type 0 where
  pub actor_id : ℤ
  pub kind : ActorKind
  pub role : Role
  pub status : Status
  pub scopes : List Text
  pub version : ℤ
  pub workspace : ℤ

unfoldable pub valid_role : Role → Bool
valid_role role = role == viewer || role == analyst || role == admin

unfoldable pub is_approved : Principal → Bool
unfolding valid_role
is_approved p = ltb_ℤ (pos 0) p.actor_id && p.status == active && valid_role p.role

unfoldable pub role_rank : Role → ℕ
role_rank viewer = 1
role_rank analyst = 2
role_rank admin = 3
role_rank (other_role s) = 0

-- `none` is the result `("", false)`.
unfoldable pub minimum_role : Action → Option Role
minimum_role intelligence_read = some viewer
minimum_role project_write = some analyst
minimum_role export_write = some analyst
minimum_role membership_govern = some admin
minimum_role service_govern = some admin
minimum_role audit_read = some admin
minimum_role operations_read = some admin
minimum_role project_lifecycle = some admin
minimum_role policy_govern = some admin
minimum_role _ = none

unfoldable pub required_scope : Action → Text
required_scope intelligence_read = codes "projects:read"
required_scope project_write = codes "projects:write"
required_scope export_write = codes "exports:write"
required_scope _ = []

-- The block for service accounts in `Authorize`.
service_check : Principal → Action → Result Error (Unit {0})
unfolding required_scope
service_check p action =
    let scope = required_scope action in
    if p.role == admin
      || action == membership_govern
      || action == service_govern
      || action == audit_read
      || action == operations_read
      || action == project_lifecycle
      || action == policy_govern
    then err permission_denied
    else if not (scope == []) && not (contains p.scopes scope)
    then err permission_denied
    else ok tt

-- `!known || roleRank(p.Role) < roleRank(minimum)`.
below_minimum : Role → Option Role → Bool
unfolding role_rank
below_minimum role none = true
below_minimum role (some minimum) = ltb (role_rank role) (role_rank minimum)

unfoldable pub authorize : Principal → Action → Result Error (Unit {0})
unfolding is_approved minimum_role below_minimum service_check
authorize p action =
    if action == catalog_read
    then ok tt
    else if p.actor_id == pos 0
    then err authentication_required
    else if p.status == pending
    then err access_pending
    else if not (is_approved p)
    then err permission_denied
    else if below_minimum p.role (minimum_role action)
    then err permission_denied
    else if p.kind == service_account
    then service_check p action
    else ok tt

unfoldable pub validate_role : Role → Bool → Result Error (Unit {0})
unfolding valid_role
validate_role role service =
    fail_if (not (valid_role role) || (service && role == admin)) invalid_input

pub record Uri : Type 0 where
  pub scheme : Text
  pub host : Text

pub record IdentityKey : Type 0 where
  pub issuer : Text
  pub subject : Text

-- `err != nil || issuer.Scheme != "https" || issuer.Host == ""`.
bad_issuer : Option Uri → Bool
bad_issuer none = true
bad_issuer (some uri) = not (uri.scheme == codes "https") || uri.host == []

unfoldable pub validate_identity : (Text → Option Uri) → IdentityKey → Result Error (Unit {0})
unfolding bad_issuer
validate_identity parse_uri k =
    fail_if (bad_issuer (parse_uri k.issuer)) invalid_input
    >> fail_if (is_blank k.subject || ltb 255 (byte_length k.subject)) invalid_input

pub record Member : Type 0 where
  pub id : ℤ
  pub identity_id : ℤ
  pub display_name : Text
  pub email : Text
  pub role : Role
  pub status : Status
  pub locale : Text
  pub timezone : Text
  pub version : ℤ
  pub requested_at : ℤ

pub record ServiceAccount : Type 0 where
  pub id : ℤ
  pub issuer : Text
  pub external_subject : Text
  pub name : Text
  pub role : Role
  pub status : Status
  pub scopes : List Text
  pub version : ℤ

unfoldable pub validate_preferences : (Text → Bool) → Text → Text → Result Error (Unit {0})
validate_preferences load_location locale timezone =
    fail_if (not (locale == codes "en") && not (locale == codes "pt-BR")) invalid_input
    >> fail_if (is_blank timezone) invalid_input
    >> fail_if (not (load_location timezone)) invalid_input

unfoldable pub validate_deletion_confirmation : Text → Result Error (Unit {0})
validate_deletion_confirmation value =
    fail_if (not (value == codes "DELETE MY ACCOUNT")) invalid_input

-- The loop over the scopes, with the scopes seen so far.
unfoldable pub check_scopes : List Text → List Text → List Text → Result Error (Unit {0})
check_scopes allowed seen [] = ok tt
check_scopes allowed seen (scope ∷ scopes) =
    fail_if (not (contains allowed scope)) invalid_input
    >> (fail_if (contains seen scope) invalid_input >> check_scopes allowed (scope ∷ seen) scopes)

unfoldable pub validate_service_account :
    (Text → Option Uri) → ServiceAccount → List Text → Result Error (Unit {0})
unfolding validate_identity validate_role check_scopes
validate_service_account parse_uri account allowed =
    validate_identity parse_uri
      (record { issuer = account.issuer; subject = account.external_subject })
    >> fail_if (is_blank account.name) invalid_input
    >> validate_role account.role true
    >> fail_if (not (account.status == active) && not (account.status == suspended)) invalid_input
    >> check_scopes allowed [] account.scopes

unfoldable pub protect_last_admin : Member → ℤ → Role → Status → Result Error (Unit {0})
protect_last_admin target active_admins next_role next_status =
    fail_if
      (target.role == admin
        && target.status == active
        && (not (next_role == admin) || not (next_status == active))
        && leb_ℤ active_admins (pos 1))
      last_admin_required
