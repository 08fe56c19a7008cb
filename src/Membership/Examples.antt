-- ===== src/Membership/Examples.antt =====
-- The theorems about the membership transactions at concrete inputs.
use opensource_project_intel.Base.{◌<◌, ◌≡◌, refl, ◌⊎◌, true, false, [], ◌∷◌, arith}
use opensource_project_intel.Base.Int.{pos, ◌+ℤ◌}
use opensource_project_intel.Base.Lists.{All}
use opensource_project_intel.Base.Result.{ok, err}
use opensource_project_intel.Base.Text.{Text, codes, text_eq}
use opensource_project_intel.Access.{
  Role-discrete, Status-discrete, ActorKind-discrete, Action-discrete, viewer, admin, active,
  suspended, member, deleted_actor, membership_govern, Principal, Member, authorize, validate_role,
  protect_last_admin, validate_deletion_confirmation, last_admin_required,
}
use opensource_project_intel.Membership.{
  Database, find_member, update_row, is_active_admin, count_active_admins, approve_member,
  update_member, delete_account, no_role, no_status,
}
use opensource_project_intel.Membership.Admins.{
  IsKeyed, update_member-keeps_admin, delete_account-keeps_admin, purged,
}
use opensource_project_intel.Membership.Approval.{approve_member-drops_admin}
use opensource_project_intel.Membership.Sessions.{IsEnded, update_member-IsEnded}

abbrev eve : Member
eve = record {
  id = pos 1;
  identity_id = pos 11;
  display_name = codes "Eve";
  email = codes "eve@example.org";
  role = admin;
  status = active;
  locale = codes "en";
  timezone = codes "UTC";
  version = pos 3;
  requested_at = pos 50;
}

abbrev tom : Member
tom = record eve { id = pos 2; identity_id = pos 12; role = viewer; version = pos 1 }

abbrev actor_of : Member → Principal
actor_of m = record {
  actor_id = m.id;
  kind = member;
  role = m.role;
  status = m.status;
  scopes = [];
  version = m.version;
  workspace = pos 1;
}

abbrev small : Database
small = record {
  members = eve ∷ tom ∷ [];
  sessions = record { id = pos 30; member_id = pos 2; revoked = false } ∷ [];
  jobs = [];
  deletions = [];
  audits = [];
}

small-IsKeyed : IsKeyed small.members
unfolding find_member
small-IsKeyed = ground arith

small-count : count_active_admins small.members ≡ 1
unfolding count_active_admins Role-discrete Status-discrete
small-count = refl

eve-governs : authorize (actor_of eve) membership_govern ≡ ok tt
unfolding authorize Role-discrete Status-discrete ActorKind-discrete Action-discrete
eve-governs = refl

-- The only active admin cannot demote herself by UpdateMember.
demotion-refused :
    update_member (actor_of eve) (pos 1) (pos 3) viewer no_status small ≡ err last_admin_required
unfolding update_member authorize validate_role protect_last_admin Role-discrete Status-discrete
    ActorKind-discrete Action-discrete
demotion-refused = refl

approve_member-drops_admin_example :
    ((m : Member) × (db' : Database) × (approve_member
          (actor_of eve)
          (pos 1)
          (codes "reject")
          viewer
          small
        ≡ ok (m, db'))
      × (count_active_admins db'.members ≡ 0))
    × ((m : Member) × (db' : Database) × (approve_member
            (actor_of eve)
            (pos 1)
            (codes "approve")
            viewer
            small
          ≡ ok (m, db'))
        × (count_active_admins db'.members ≡ 0))
unfolding find_member is_active_admin Role-discrete Status-discrete
approve_member-drops_admin_example =
    approve_member-drops_admin (actor_of eve) (pos 1) viewer small eve-governs small-IsKeyed refl
      refl small-count

abbrev tom_suspended : Member
tom_suspended = record tom { status = suspended; version = pos 2 }

abbrev after_suspension : Database
after_suspension = record small {
  members = eve ∷ tom_suspended ∷ [];
  sessions = record { id = pos 30; member_id = pos 2; revoked = true } ∷ [];
  audits =
      record {
        actor_id = pos 1;
        actor_kind = member;
        action = codes "membership.update";
        target_id = pos 2;
      }
      ∷ [];
}

suspends :
    update_member (actor_of eve) (pos 2) (pos 1) no_role suspended small
    ≡ ok (tom_suspended, after_suspension)
unfolding update_member authorize validate_role protect_last_admin Role-discrete Status-discrete
    ActorKind-discrete Action-discrete ◌+ℤ◌
suspends = refl

update_member-IsEnded_example :
    ((viewer ≡ viewer) × (suspended ≡ active) × (after_suspension.sessions ≡ small.sessions))
    ⊎ All (IsEnded (pos 2)) after_suspension.sessions
unfolding find_member
update_member-IsEnded_example =
    update_member-IsEnded (actor_of eve) (pos 2) (pos 1) no_role suspended small {t = tom} refl
      suspends

abbrev after_deletion : Database
after_deletion = record small {
  members = eve ∷ purged tom ∷ [];
  sessions = record { id = pos 30; member_id = pos 2; revoked = true } ∷ [];
  jobs = pos 90 ∷ [];
  deletions = (pos 2, pos 90) ∷ [];
  audits =
      record {
        actor_id = pos 2;
        actor_kind = deleted_actor;
        action = codes "member.delete";
        target_id = pos 2;
      }
      ∷ [];
}

abbrev confirmation : Text
confirmation = codes "DELETE MY ACCOUNT"

deletes :
    delete_account (actor_of tom) confirmation (ok (pos 90)) small ≡ ok (pos 90, after_deletion)
unfolding delete_account validate_deletion_confirmation protect_last_admin Role-discrete
    Status-discrete ActorKind-discrete Action-discrete ◌+ℤ◌
deletes = refl

update_member-keeps_admin_example :
    0
    < count_active_admins
        (update_row (pos 2) (λ _. record tom { status = suspended; version = pos 2 }) small.members)
unfolding update_member authorize validate_role protect_last_admin Role-discrete Status-discrete
    ActorKind-discrete Action-discrete ◌+ℤ◌
update_member-keeps_admin_example =
    update_member-keeps_admin (actor_of eve) (pos 2) (pos 1) no_role suspended small small-IsKeyed
      (omega (arith, small-count)) refl

delete_account-keeps_admin_example :
    0 < count_active_admins (update_row (pos 2) (λ _. purged tom) small.members)
unfolding delete_account validate_deletion_confirmation protect_last_admin Role-discrete
    Status-discrete ActorKind-discrete Action-discrete
delete_account-keeps_admin_example =
    delete_account-keeps_admin (actor_of tom) confirmation (ok (pos 90)) small small-IsKeyed
      (omega (arith, small-count)) deletes
