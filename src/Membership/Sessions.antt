-- ===== src/Membership/Sessions.antt =====
-- Which sessions the membership transactions end (internal/platform/accessstore/store.go).
use opensource_project_intel.Base.{◌≡◌, ◌≢◌, ◌⊎◌, inl, inr, true, some, List, [], ◌∷◌, arith}
use opensource_project_intel.Base.Int.{ℤ, int_eq, int_beq_iff}
use opensource_project_intel.Base.Result.{Result, ok}
use opensource_project_intel.Base.Text.{Text, codes, text_eq, text_beq_iff}
use opensource_project_intel.Access.{
  Role, Role_eq, Status, deleted, Status_eq, ActorKind_eq, Error, Principal, Member,
  validate_deletion_confirmation,
}
use opensource_project_intel.Membership.{
  Session, Database, find_member, update_row, revoke_sessions, update_member, delete_account,
}
use opensource_project_intel.Base.Lists.{All}
use opensource_project_intel.Membership.Admins.{revised, purged}

-- A session of the member is revoked.
abbrev pub IsEnded : ℤ → Session → Type 0
IsEnded id s = (s.member_id ≢ id) ⊎ (s.revoked ≡ true)

revoke_sessions-IsEnded : (id : ℤ) (ss : List Session) → All (IsEnded id) (revoke_sessions id ss)
unfolding revoke_sessions
revoke_sessions-IsEnded id [] = tt
revoke_sessions-IsEnded id (s ∷ ss) =
    (ground (arith, int_beq_iff s.member_id id), revoke_sessions-IsEnded id ss)

update_member-sessions :
    (actor : Principal) (id expected_version : ℤ) (role : Role) (status : Status) (db : Database)
    {t m : Member} {db' : Database}
    → find_member id db.members ≡ some t
    → update_member actor id expected_version role status db ≡ ok (m, db')
    → (m ≡ revised role status t)
      × (((m.role ≡ t.role) × (m.status ≡ t.status) × (db'.sessions ≡ db.sessions))
          ⊎ (db'.sessions ≡ revoke_sessions id db.sessions))
unfolding update_member
update_member-sessions actor id expected_version role status db e h = ground arith

-- An UpdateMember that returns no error either leaves the member's role and status, and then every
-- session, as they were, or ends every session of the member.
pub update_member-IsEnded :
    (actor : Principal) (id expected_version : ℤ) (role : Role) (status : Status) (db : Database)
    {t m : Member} {db' : Database}
    → find_member id db.members ≡ some t
    → update_member actor id expected_version role status db ≡ ok (m, db')
    → ((m.role ≡ t.role) × (m.status ≡ t.status) × (db'.sessions ≡ db.sessions))
      ⊎ All (IsEnded id) db'.sessions
update_member-IsEnded actor id expected_version role status db e h =
    elim (update_member-sessions actor id expected_version role status db e h).1 [
      | inl same ↦ inl same
      | inr q ↦ inr (rw q (revoke_sessions-IsEnded id db.sessions))
    ]

delete_account-sessions :
    (actor : Principal) (confirmation : Text) (issued : Result Error ℤ) (db : Database) {t : Member}
    {job : ℤ} {db' : Database}
    → find_member actor.actor_id db.members ≡ some t
    → t.status ≢ deleted
    → delete_account actor confirmation issued db ≡ ok (job, db')
    → (db'.sessions ≡ revoke_sessions actor.actor_id db.sessions)
      × (db'.members ≡ update_row actor.actor_id (λ _. purged t) db.members)
      × (issued ≡ ok job)
      × (confirmation ≡ codes "DELETE MY ACCOUNT")
unfolding delete_account validate_deletion_confirmation
delete_account-sessions actor confirmation issued db e d h =
    ground (arith, text_beq_iff confirmation (codes "DELETE MY ACCOUNT"))

-- A DeleteAccount that returns no error for an account not yet deleted was confirmed, wrote the
-- purged row, ended every session of the account and returned the job that it was issued.
pub delete_account-purges :
    (actor : Principal) (confirmation : Text) (issued : Result Error ℤ) (db : Database) {t : Member}
    {job : ℤ} {db' : Database}
    → find_member actor.actor_id db.members ≡ some t
    → t.status ≢ deleted
    → delete_account actor confirmation issued db ≡ ok (job, db')
    → (confirmation ≡ codes "DELETE MY ACCOUNT")
      × (issued ≡ ok job)
      × (db'.members ≡ update_row actor.actor_id (λ _. purged t) db.members)
      × All (IsEnded actor.actor_id) db'.sessions
delete_account-purges actor confirmation issued db e d h =
    let (s, m, i, c) = delete_account-sessions actor confirmation issued db e d h in
    (c, i, m, rw s (revoke_sessions-IsEnded actor.actor_id db.sessions))
