-- ===== src/Access/Permissions.antt =====
-- Who may do what: `Authorize` of internal/access/access.go against a table of permissions.
use opensource_project_intel.Base.{◌≡◌, ap, ◌≢◌, ◌↔◌, ◌⊎◌, inl, inr, true, arith}
use opensource_project_intel.Base.Int.{pos, ◌<ℤ◌, int_eq}
use opensource_project_intel.Base.Lists.{contains}
use opensource_project_intel.Base.Result.{ok, err, is_ok}
use opensource_project_intel.Base.Text.{Text, codes, text_eq}
use opensource_project_intel.Access.{
  Role, viewer, analyst, admin, pending, active, service_account, Action, catalog_read,
  intelligence_read, project_write, export_write, membership_govern, service_govern, audit_read,
  operations_read, project_lifecycle, policy_govern, other_action, Error, authentication_required,
  access_pending, permission_denied, Principal, authorize,
}

-- The actions that only admins do.
pub data IsGovernance : Action → Type 0 where
  membership : IsGovernance membership_govern
  service : IsGovernance service_govern
  audit : IsGovernance audit_read
  operations : IsGovernance operations_read
  lifecycle : IsGovernance project_lifecycle
  policy : IsGovernance policy_govern

-- The actions that write projects or exports, each with the scope that a service account needs.
-- This is the code's table, in which an export takes an analyst or an admin: the product requirements
-- and the API contract let viewers export (specs/01-product-requirements.md, specs/06-api-contracts.md).
pub data Writes : Action → Text → Type 0 where
  projects : Writes project_write (codes "projects:write")
  exports : Writes export_write (codes "exports:write")

abbrev pub IsActive : Principal → Type 0
IsActive p = (pos 0 <ℤ p.actor_id) × (p.status ≡ active)

abbrev pub IsWriter : Role → Type 0
IsWriter role = (role ≡ analyst) ⊎ (role ≡ admin)

abbrev pub IsReader : Role → Type 0
IsReader role = (role ≡ viewer) ⊎ IsWriter role

-- The table of permissions: who may do an action.
pub data Permitted (p : Principal) : Action → Type 0 where
  anyone : Permitted p catalog_read
  person_reads :
      IsActive p → p.kind ≢ service_account → IsReader p.role → Permitted p intelligence_read
  service_reads :
      IsActive p
      → p.kind ≡ service_account
      → (p.role ≡ viewer) ⊎ (p.role ≡ analyst)
      → contains p.scopes (codes "projects:read") ≡ true
      → Permitted p intelligence_read
  person_writes :
      {a : Action} {scope : Text}
      → IsActive p
      → p.kind ≢ service_account
      → IsWriter p.role
      → Writes a scope
      → Permitted p a
  service_writes :
      {a : Action} {scope : Text}
      → IsActive p
      → p.kind ≡ service_account
      → p.role ≡ analyst
      → Writes a scope
      → contains p.scopes scope ≡ true
      → Permitted p a
  person_governs :
      {a : Action}
      → IsActive p
      → p.kind ≢ service_account
      → p.role ≡ admin
      → IsGovernance a
      → Permitted p a

reads :
    (p : Principal)
    → is_ok (authorize p intelligence_read) ≡ true
    → IsActive p
      × (((p.kind ≢ service_account) × IsReader p.role)
          ⊎ ((p.kind ≡ service_account)
              × ((p.role ≡ viewer) ⊎ (p.role ≡ analyst))
              × (contains p.scopes (codes "projects:read") ≡ true)))
unfolding authorize
reads p h = ground arith

writes :
    (p : Principal) {a : Action} {scope : Text}
    → Writes a scope
    → is_ok (authorize p a) ≡ true
    → IsActive p
      × (((p.kind ≢ service_account) × IsWriter p.role)
          ⊎ ((p.kind ≡ service_account) × (p.role ≡ analyst) × (contains p.scopes scope ≡ true)))
unfolding authorize
writes p projects h = ground arith
writes p exports h = ground arith

governs :
    (p : Principal) {a : Action}
    → IsGovernance a
    → is_ok (authorize p a) ≡ true
    → IsActive p × (p.kind ≢ service_account) × (p.role ≡ admin)
unfolding authorize
governs p membership h = ground arith
governs p service h = ground arith
governs p audit h = ground arith
governs p operations h = ground arith
governs p lifecycle h = ground arith
governs p policy h = ground arith

Writes-Permitted :
    (p : Principal) {a : Action} {scope : Text}
    → Writes a scope
    → is_ok (authorize p a) ≡ true
    → Permitted p a
Writes-Permitted p w h = elim (writes p w h).1 [
  | inl (k, r) ↦ person_writes (writes p w h).0 k r w
  | inr (k, r, s) ↦ service_writes (writes p w h).0 k r w s
]

governs-Permitted :
    (p : Principal) {a : Action} → IsGovernance a → is_ok (authorize p a) ≡ true → Permitted p a
governs-Permitted p g h = let (i, k, r) = governs p g h in person_governs i k r g

authorize-Permitted : (p : Principal) (a : Action) → is_ok (authorize p a) ≡ true → Permitted p a
unfolding authorize
authorize-Permitted p catalog_read h = anyone
authorize-Permitted p intelligence_read h = elim (reads p h).1 [
  | inl (k, r) ↦ person_reads (reads p h).0 k r
  | inr (k, r, s) ↦ service_reads (reads p h).0 k r s
]
authorize-Permitted p project_write h = Writes-Permitted p projects h
authorize-Permitted p export_write h = Writes-Permitted p exports h
authorize-Permitted p membership_govern h = governs-Permitted p membership h
authorize-Permitted p service_govern h = governs-Permitted p service h
authorize-Permitted p audit_read h = governs-Permitted p audit h
authorize-Permitted p operations_read h = governs-Permitted p operations h
authorize-Permitted p project_lifecycle h = governs-Permitted p lifecycle h
authorize-Permitted p policy_govern h = governs-Permitted p policy h
authorize-Permitted p (other_action s) h = absurd (ground arith)

Permitted-authorize : (p : Principal) (a : Action) → Permitted p a → authorize p a ≡ ok tt
unfolding authorize
Permitted-authorize p a anyone = ground arith
Permitted-authorize p a (person_reads i k r) = ground arith
Permitted-authorize p a (service_reads i k r s) = ground arith
Permitted-authorize p a (person_writes i k r projects) = ground arith
Permitted-authorize p a (person_writes i k r exports) = ground arith
Permitted-authorize p a (service_writes i k r projects s) = ground arith
Permitted-authorize p a (service_writes i k r exports s) = ground arith
Permitted-authorize p a (person_governs i k r membership) = ground arith
Permitted-authorize p a (person_governs i k r service) = ground arith
Permitted-authorize p a (person_governs i k r audit) = ground arith
Permitted-authorize p a (person_governs i k r operations) = ground arith
Permitted-authorize p a (person_governs i k r lifecycle) = ground arith
Permitted-authorize p a (person_governs i k r policy) = ground arith

-- `Authorize` returns no error exactly for the actions that the table permits, which is the table of
-- the code: in it a viewer exports nothing, which the specifications allow.
pub authorize_iff : (p : Principal) (a : Action) → (is_ok (authorize p a) ≡ true) ↔ Permitted p a
authorize_iff p a = (authorize-Permitted p a, λ h. ap is_ok (Permitted-authorize p a h))

-- Which error a refused action gets: none but the public catalogue is open without a principal;
-- a pending member is told so; any other refusal is a denial.
pub authorize_errors :
    (p : Principal) (a : Action) {e : Error}
    → authorize p a ≡ err e
    → (a ≢ catalog_read)
      × (((p.actor_id ≡ pos 0) × (e ≡ authentication_required))
          ⊎ ((p.actor_id ≢ pos 0) × (p.status ≡ pending) × (e ≡ access_pending))
          ⊎ ((p.actor_id ≢ pos 0) × (p.status ≢ pending) × (e ≡ permission_denied)))
unfolding authorize
authorize_errors p catalog_read h = ground arith
authorize_errors p _ h = ground arith
