-- ===== src/Membership.antt =====
-- The membership transactions of internal/platform/accessstore/store.go: ApproveMember, UpdateMember
-- and DeleteAccount. The database is a table of memberships of the one workspace, joined with
-- their identities, and the tables that the transactions write. A transaction is serializable, so
-- it is one step; that the database fails is left out, and an error rolls the step back. The result
-- of `ids.Next` is an argument.
pub mod Admins
pub mod Approval
pub mod Sessions
mod Examples
use opensource_project_intel.Base.{
  ℕ, zero, suc, ◌+◌, Bool, true, false, ◌&&◌, ◌||◌, not, Option, none, some, List, [], ◌∷◌, ◌++◌,
  if◌then◌else◌, ◌==◌,
}
use opensource_project_intel.Base.Int.{ℤ, pos, ◌+ℤ◌, int_eq}
use opensource_project_intel.Base.Result.{Result, ok, err, ◌>>=◌, ◌>>◌, fail_if}
use opensource_project_intel.Base.Text.{Text, codes, text_eq}
use opensource_project_intel.Access.{
  Role, admin, other_role, Role_eq, Status, pending, active, rejected, suspended, deleted,
  other_status, Status_eq, ActorKind, member, deleted_actor, ActorKind_eq, Action,
  membership_govern, Error, invalid_input, not_found, version_conflict, store_failed,
  permission_denied, Principal, Member, authorize, validate_role, protect_last_admin,
  validate_deletion_confirmation,
}

pub record Session : Type 0 where
  pub id : ℤ
  pub member_id : ℤ
  pub revoked : Bool

pub record AuditEvent : Type 0 where
  pub actor_id : ℤ
  pub actor_kind : ActorKind
  pub action : Text
  pub target_id : ℤ

-- `deletions` holds the pairs of id and deletion_job_id of the table of memberships.
pub record Database : Type 0 where
  pub members : List Member
  pub sessions : List Session
  pub jobs : List ℤ
  pub deletions : List (ℤ × ℤ)
  pub audits : List AuditEvent

-- `SELECT … FROM memberships WHERE m.id = $1`.
unfoldable pub find_member : ℤ → List Member → Option Member
find_member id [] = none
find_member id (m ∷ ms) = if m.id == id then some m else find_member id ms

-- `UPDATE memberships … WHERE m.id = $1`.
unfoldable pub update_row : ℤ → (Member → Member) → List Member → List Member
update_row id f [] = []
update_row id f (m ∷ ms) = (if m.id == id then f m else m) ∷ update_row id f ms

unfoldable pub is_active_admin : Member → Bool
is_active_admin m = m.role == admin && m.status == active

-- `SELECT count(*) FROM memberships WHERE role = 'admin' AND status = 'active'`.
unfoldable pub count_active_admins : List Member → ℕ
unfolding is_active_admin
count_active_admins [] = 0
count_active_admins (m ∷ ms) = (if is_active_admin m then 1 else 0) + count_active_admins ms

-- `RevokeMemberSessions`.
unfoldable pub revoke_sessions : ℤ → List Session → List Session
revoke_sessions member_id [] = []
revoke_sessions member_id (s ∷ ss) =
    (if s.member_id == member_id then record s { revoked = true } else s)
    ∷ revoke_sessions member_id ss

lookup_job : ℤ → List (ℤ × ℤ) → Result Error ℤ
lookup_job id [] = err not_found
lookup_job id ((member_id, job) ∷ rest) = if member_id == id then ok job else lookup_job id rest

or_not_found : Option Member → Result Error Member
or_not_found none = err not_found
or_not_found (some m) = ok m

-- The zero value of a Role is the empty string. The table holds NULL there: `NULLIF` writes it, and
-- a write of the empty string itself fails the table's CHECK (`store_failed`).
abbrev pub no_role : Role
no_role = other_role []

abbrev pub no_status : Status
no_status = other_status []

abbrev audit_of : Principal → Text → ℤ → AuditEvent
audit_of actor action target_id = record {
  actor_id = actor.actor_id;
  actor_kind = actor.kind;
  action = action;
  target_id = target_id;
}

-- `m.status IN ('pending', 'active', 'rejected', 'suspended')`.
decidable_status : Status → Bool
decidable_status pending = true
decidable_status active = true
decidable_status rejected = true
decidable_status suspended = true
decidable_status _ = false

-- The transaction of `ApproveMember`, once the decision has become a role and a status.
decide_member : Principal → ℤ → Text → Role → Status → Database → Result Error (Member × Database)
unfolding find_member update_row or_not_found decidable_status
decide_member actor id decision role status db = do
  current ← or_not_found (find_member id db.members)
  let updated = record current { role = role; status = status; version = current.version +ℤ pos 1 }
  if current.status == status && current.role == role
      then ok (current, db)
      else if not (decidable_status current.status)
      then err not_found
      else ok (
        updated,
        record db {
          members = update_row id (λ _. updated) db.members;
          audits = db.audits ++ audit_of actor (codes "membership." ++ decision) id ∷ [];
        },
      )

unfoldable pub approve_member :
    Principal → ℤ → Text → Role → Database → Result Error (Member × Database)
unfolding decide_member
approve_member actor id decision role db = do
  authorize actor membership_govern
  fail_if (not (decision == codes "approve") && not (decision == codes "reject")) invalid_input
  if decision == codes "approve"
      then validate_role role false >> decide_member actor id decision role active db
      else decide_member actor id decision no_role rejected db

unfoldable pub update_member :
    Principal → ℤ → ℤ → Role → Status → Database → Result Error (Member × Database)
unfolding find_member update_row or_not_found count_active_admins revoke_sessions
update_member actor id expected_version role status db = do
  authorize actor membership_govern
  (if role == no_role then ok tt else validate_role role false)
  fail_if (not (status == no_status) && not (status == active) && not (status == suspended))
      invalid_input
  target ← or_not_found (find_member id db.members)
  fail_if (not (target.version == expected_version)) version_conflict
  let role' = if role == no_role then target.role else role
  let status' = if status == no_status then target.status else status
  protect_last_admin target (pos (count_active_admins db.members)) role' status'
  fail_if (role' == no_role) store_failed
  let updated = record target { role = role'; status = status'; version = target.version +ℤ pos 1 }
  ok (
    updated,
    record db {
      members = update_row id (λ _. updated) db.members;
      sessions =
          if not (target.role == role') || not (target.status == status')
          then revoke_sessions id db.sessions
          else db.sessions;
      audits = db.audits ++ audit_of actor (codes "membership.update") id ∷ [];
    },
  )

-- The writes of `DeleteAccount` after its checks: `job_id` is what `ids.Next` issued.
erase_account : Principal → Member → ℤ → Database → Database
unfolding update_row revoke_sessions
erase_account actor target job_id db =
    let id = actor.actor_id in
    let purged = record target {
      display_name = [];
      email = [];
      role = no_role;
      status = deleted;
      locale = codes "en";
      timezone = codes "UTC";
      version = target.version +ℤ pos 1;
    } in
    record db {
      members = update_row id (λ _. purged) db.members;
      sessions = revoke_sessions id db.sessions;
      jobs = job_id ∷ db.jobs;
      deletions = (id, job_id) ∷ db.deletions;
      audits =
          db.audits
          ++ audit_of (record actor { kind = deleted_actor }) (codes "member.delete") id ∷ [];
    }

unfoldable pub delete_account :
    Principal → Text → Result Error ℤ → Database → Result Error (ℤ × Database)
unfolding find_member or_not_found count_active_admins lookup_job erase_account
delete_account actor confirmation issued db = do
  fail_if (not (actor.kind == member) || actor.actor_id == pos 0) permission_denied
  validate_deletion_confirmation confirmation
  target ← or_not_found (find_member actor.actor_id db.members)
  let purge = (do
    protect_last_admin target (pos (count_active_admins db.members)) no_role deleted
    job_id ← issued
    ok (job_id, erase_account actor target job_id db))
  if target.status == deleted
      then lookup_job actor.actor_id db.deletions >>= (λ job. ok (job, db))
      else purge
