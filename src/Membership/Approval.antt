-- ===== src/Membership/Approval.antt =====
-- What ApproveMember does to the last active admin (internal/platform/accessstore/store.go).
use opensource_project_intel.Base.{◌≡◌, true, false, some, [], ◌∷◌, ◌++◌, arith}
use opensource_project_intel.Base.Int.{ℤ, pos, ◌+ℤ◌, int_eq}
use opensource_project_intel.Base.Result.{ok}
use opensource_project_intel.Base.Text.{Text, codes, text_eq}
use opensource_project_intel.Access.{
  Role, viewer, Role_eq, Status, active, rejected, Status_eq, ActorKind_eq, membership_govern,
  Principal, Member, authorize, validate_role,
}
use opensource_project_intel.Membership.{
  Database, audit_of, find_member, update_row, is_active_admin, count_active_admins, approve_member,
  no_role,
}
use opensource_project_intel.Membership.Admins.{IsKeyed, count-update_row}

-- What ApproveMember writes for a decision.
abbrev decided : Role → Status → Member → Member
decided role status t = record t { role = role; status = status; version = t.version +ℤ pos 1 }

abbrev after_decision : Principal → ℤ → Text → Member → Database → Database
after_decision actor id decision u db = record db {
  members = update_row id (λ _. u) db.members;
  audits = db.audits ++ audit_of actor (codes "membership." ++ decision) id ∷ [];
}

reject_admin :
    (actor : Principal) (id : ℤ) (role : Role) (db : Database) (t : Member)
    → authorize actor membership_govern ≡ ok tt
    → find_member id db.members ≡ some t
    → is_active_admin t ≡ true
    → approve_member actor id (codes "reject") role db
      ≡ ok (
        decided no_role rejected t,
        after_decision actor id (codes "reject") (decided no_role rejected t) db,
      )
unfolding approve_member is_active_admin
reject_admin actor id role db t a e i = ground arith

demote_admin :
    (actor : Principal) (id : ℤ) (db : Database) (t : Member)
    → authorize actor membership_govern ≡ ok tt
    → find_member id db.members ≡ some t
    → is_active_admin t ≡ true
    → approve_member actor id (codes "approve") viewer db
      ≡ ok (
        decided viewer active t,
        after_decision actor id (codes "approve") (decided viewer active t) db,
      )
unfolding approve_member is_active_admin validate_role
demote_admin actor id db t a e i = ground arith

decided_count :
    (id : ℤ) (db : Database) (t u : Member)
    → IsKeyed db.members
    → find_member id db.members ≡ some t
    → is_active_admin t ≡ true
    → count_active_admins db.members ≡ 1
    → is_active_admin u ≡ false
    → count_active_admins (update_row id (λ _. u) db.members) ≡ 0
decided_count id db t u k e i c d = ground (arith, count-update_row id t u db.members k e)

-- ApproveMember has no such guard. Where the target is the only active admin of a table keyed by
-- id and the actor may govern memberships, a rejection leaves no active admin, and so does an
-- approval as viewer; neither returns an error.
pub approve_member-drops_admin :
    (actor : Principal) (id : ℤ) (role : Role) (db : Database) {t : Member}
    → authorize actor membership_govern ≡ ok tt
    → IsKeyed db.members
    → find_member id db.members ≡ some t
    → is_active_admin t ≡ true
    → count_active_admins db.members ≡ 1
    → ((m : Member) × (db' : Database) × (approve_member actor id (codes "reject") role db
          ≡ ok (m, db'))
        × (count_active_admins db'.members ≡ 0))
      × ((m : Member) × (db' : Database) × (approve_member actor id (codes "approve") viewer db
            ≡ ok (m, db'))
          × (count_active_admins db'.members ≡ 0))
unfolding approve_member validate_role is_active_admin
approve_member-drops_admin actor id role db {t} a k e i c = (
  (
    decided no_role rejected t,
    after_decision actor id (codes "reject") (decided no_role rejected t) db,
    reject_admin actor id role db t a e i,
    decided_count id db t (decided no_role rejected t) k e i c ground arith,
  ),
  (
    decided viewer active t,
    after_decision actor id (codes "approve") (decided viewer active t) db,
    demote_admin actor id db t a e i,
    decided_count id db t (decided viewer active t) k e i c ground arith,
  ),
)
