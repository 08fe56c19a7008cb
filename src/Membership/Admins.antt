-- ===== src/Membership/Admins.antt =====
-- How many active admins the membership transactions leave (internal/platform/accessstore/store.go).
use opensource_project_intel.Base.{
  ℕ, ◌+◌, ◌<◌, ◌≡◌, refl, ◌⊎◌, inl, inr, true, none, some, List, [], ◌∷◌, Option-cases,
  if◌then◌else◌, ◌==◌, arith,
}
use opensource_project_intel.Base.Int.{ℤ, pos, ◌+ℤ◌, int_eq, int_beq_iff}
use opensource_project_intel.Base.Result.{Result, ok, is_ok}
use opensource_project_intel.Base.Text.{Text, codes, text_eq}
use opensource_project_intel.Access.{
  Role, Role_eq, Status, deleted, Status_eq, ActorKind_eq, Error, Principal, Member,
  protect_last_admin,
}
use opensource_project_intel.Membership.{
  Database, find_member, update_row, is_active_admin, count_active_admins, update_member,
  delete_account, no_role, no_status,
}

-- The primary key: no two rows have one id.
abbrev pub IsKeyed : List Member → Type 0
IsKeyed [] = Unit
IsKeyed (m ∷ ms) = (find_member m.id ms ≡ none) × IsKeyed ms

abbrev pub admin_weight : Member → ℕ
admin_weight m = if is_active_admin m then 1 else 0

update_row_absent :
    (id : ℤ) (f : Member → Member) (ms : List Member)
    → find_member id ms ≡ none
    → update_row id f ms ≡ ms
unfolding find_member update_row
update_row_absent id f [] h = refl
update_row_absent id f (m ∷ ms) h = ground (arith, update_row_absent id f ms)

-- A row that is written moves the count by its own change.
pub count-update_row :
    (id : ℤ) (t u : Member) (ms : List Member)
    → IsKeyed ms
    → find_member id ms ≡ some t
    → count_active_admins (update_row id (λ _. u) ms) + admin_weight t
      ≡ count_active_admins ms + admin_weight u
unfolding find_member update_row count_active_admins
count-update_row id t u [] k h = cc
count-update_row id t u (m ∷ ms) k h =
    ground
      (arith, update_row_absent id (λ _. u) ms, count-update_row id t u ms k.1, int_beq_iff m.id id)

-- What UpdateMember writes to the row of its target.
abbrev pub revised : Role → Status → Member → Member
revised role status t = record t {
  role = if role == no_role then t.role else role;
  status = if status == no_status then t.status else status;
  version = t.version +ℤ pos 1;
}

protected :
    (t : Member) (count : ℕ) (role : Role) (status : Status) (u : Member)
    → u.role ≡ role
    → u.status ≡ status
    → is_ok (protect_last_admin t (pos count) role status) ≡ true
    → (admin_weight t ≡ admin_weight u) ⊎ (admin_weight t ≡ 0) ⊎ (1 < count)
unfolding protect_last_admin is_active_admin
protected t count role status u r s h = ground arith

-- The parts of a call of UpdateMember that returns no error.
pub update_member_parts :
    (actor : Principal) (id expected_version : ℤ) (role : Role) (status : Status) (db : Database)
    {m : Member} {db' : Database}
    → update_member actor id expected_version role status db ≡ ok (m, db')
    → (t : Member) × (find_member id db.members ≡ some t)
      × (is_ok (
            protect_last_admin t
              (pos (count_active_admins db.members))
              (revised role status t).role
              (revised role status t).status)
          ≡ true)
      × (db'.members ≡ update_row id (λ _. revised role status t) db.members)
unfolding update_member
update_member_parts actor id expected_version role status db h =
    elim (Option-cases (find_member id db.members)) [
      | inl e ↦ absurd (ground arith)
      | inr (t, e) ↦ (t, e, ground arith, ground arith)
    ]

-- In a table keyed by id that has an active admin, an UpdateMember that returns no error leaves one.
pub update_member-keeps_admin :
    (actor : Principal) (id expected_version : ℤ) (role : Role) (status : Status) (db : Database)
    {m : Member} {db' : Database}
    → IsKeyed db.members
    → 0 < count_active_admins db.members
    → update_member actor id expected_version role status db ≡ ok (m, db')
    → 0 < count_active_admins db'.members
update_member-keeps_admin actor id expected_version role status db {db'} k c h =
    let (t, e, p, q) = update_member_parts actor id expected_version role status db h in
    let u : Member = revised role status t in
    rw q (
      ground (
        arith,
        count-update_row id t u db.members k e,
        protected t (count_active_admins db.members) u.role u.status u refl refl p,
      ))

-- What DeleteAccount writes to the row of its target.
abbrev pub purged : Member → Member
purged t = record t {
  display_name = [];
  email = [];
  role = no_role;
  status = deleted;
  locale = codes "en";
  timezone = codes "UTC";
  version = t.version +ℤ pos 1;
}

pub delete_account_parts :
    (actor : Principal) (confirmation : Text) (issued : Result Error ℤ) (db : Database) {job : ℤ}
    {db' : Database}
    → delete_account actor confirmation issued db ≡ ok (job, db')
    → (t : Member) × (find_member actor.actor_id db.members ≡ some t)
      × ((db' ≡ db)
          ⊎ ((is_ok (protect_last_admin t (pos (count_active_admins db.members)) no_role deleted)
                ≡ true)
              × (db'.members ≡ update_row actor.actor_id (λ _. purged t) db.members)))
unfolding delete_account
delete_account_parts actor confirmation issued db h =
    elim (Option-cases (find_member actor.actor_id db.members)) [
      | inl e ↦ absurd (ground arith)
      | inr (t, e) ↦ (t, e, ground arith)
    ]

-- In a table keyed by id that has an active admin, a DeleteAccount that returns no error leaves one.
pub delete_account-keeps_admin :
    (actor : Principal) (confirmation : Text) (issued : Result Error ℤ) (db : Database) {job : ℤ}
    {db' : Database}
    → IsKeyed db.members
    → 0 < count_active_admins db.members
    → delete_account actor confirmation issued db ≡ ok (job, db')
    → 0 < count_active_admins db'.members
delete_account-keeps_admin actor confirmation issued db {db'} k c h =
    let (t, e, p) = delete_account_parts actor confirmation issued db h in
    elim p [
      | inl same ↦ rw same c
      | inr (guarded, q) ↦ rw q (
          ground (
            arith,
            count-update_row actor.actor_id t (purged t) db.members k e,
            protected t (count_active_admins db.members) no_role deleted (purged t) refl refl
                guarded,
          ))
    ]
