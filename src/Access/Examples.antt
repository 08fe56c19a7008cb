-- ===== src/Access/Examples.antt =====
-- Tests of the access rules, and the theorems about them at concrete inputs.
use opensource_project_intel.Base.{◌≡◌, refl, ◌↔◌, true, Option, some, [], ◌∷◌}
use opensource_project_intel.Base.Int.{pos}
use opensource_project_intel.Base.Result.{ok, err, is_ok}
use opensource_project_intel.Base.Text.{Text, codes, is_blank, byte_length}
use opensource_project_intel.Access.{
  Role-discrete, Status-discrete, ActorKind-discrete, Action-discrete, analyst, pending, active,
  service_account, member, intelligence_read, project_write, access_pending, permission_denied,
  Principal, Uri, ServiceAccount, authorize, validate_service_account,
}
use opensource_project_intel.Access.Permissions.{Permitted, authorize_iff}

abbrev collector : Principal
collector = record {
  actor_id = pos 8;
  kind = service_account;
  role = analyst;
  status = active;
  scopes = codes "projects:write" ∷ [];
  version = pos 1;
  workspace = pos 1;
}

abbrev applicant : Principal
applicant = record collector { kind = member; status = pending }

collector-writes : authorize collector project_write ≡ ok tt
unfolding authorize Role-discrete Status-discrete ActorKind-discrete Action-discrete
collector-writes = refl

collector_reads : authorize collector intelligence_read ≡ err permission_denied
unfolding authorize Role-discrete Status-discrete ActorKind-discrete Action-discrete
collector_reads = refl

applicant-pending : authorize applicant project_write ≡ err access_pending
unfolding authorize Role-discrete Status-discrete ActorKind-discrete Action-discrete
applicant-pending = refl

authorize_iff_example :
    (is_ok (authorize collector project_write) ≡ true) ↔ Permitted collector project_write
authorize_iff_example = authorize_iff collector project_write

abbrev known_issuer : Text → Option Uri
known_issuer _ = some (record { scheme = codes "https"; host = codes "id.example" })

abbrev robot : ServiceAccount
robot = record {
  id = pos 9;
  issuer = codes "https://id.example";
  external_subject = codes "robot";
  name = codes "Robot";
  role = analyst;
  status = active;
  scopes = codes "projects:read" ∷ codes "projects:write" ∷ [];
  version = pos 1;
}

robot-accepted :
    validate_service_account known_issuer robot
      (codes "projects:write" ∷ codes "projects:read" ∷ [])
    ≡ ok tt
unfolding validate_service_account is_blank byte_length Role-discrete Status-discrete
robot-accepted = refl
