-- ===== src/Project/Lifecycle.antt =====
-- The states of a project: `Transition` and `CanSynchronize` of internal/project/project.go.
use opensource_project_intel.Base.{
  ℕ, zero, suc, ◌≡◌, refl, ◌≢◌, ◌↔◌, ◌⊎◌, inl, inr, Bool, true, some, [], arith,
}
use opensource_project_intel.Base.Int.{
  ℤ, pos, negsuc, ◌<ℤ◌, int_eq, inc64, int_beq_iff, max_int64, inc64_parts,
}
use opensource_project_intel.Base.Result.{ok, err, is_ok}
use opensource_project_intel.Project.{
  State, active, paused, archived, deleting, deleted, State_eq, Project, transition,
  version_conflict, valid_state,
}
use opensource_project_intel.Project.Valid.{IsValid}

-- The moves between the states of a project.
pub data Move : State → State → Type 0 where
  pause : Move active paused
  archive : Move active archived
  resume : Move paused active
  shelve : Move paused archived
  restore : Move archived active
  hold : Move archived paused
  start_deletion : {s : State} → (s ≡ active) ⊎ (s ≡ paused) ⊎ (s ≡ archived) → Move s deleting
  finish_deletion : Move deleting deleted

-- A repeated request that changes nothing.
abbrev pub Repeats : State → State → Type 0
Repeats from to = (from ≡ to) × ((to ≡ paused) ⊎ (to ≡ archived))

transition-Move :
    (p : Project) (to : State) (expected_version : ℤ) (admin : Bool) (now : ℤ)
    → is_ok (transition p to expected_version admin now) ≡ true
    → (admin ≡ true) × (expected_version ≡ p.version) × (Move p.state to ⊎ Repeats p.state to)
unfolding transition
transition-Move p to expected_version admin now h = grind (
  arith,
  int_beq_iff expected_version p.version,
  pause,
  archive,
  resume,
  shelve,
  restore,
  hold,
  start_deletion,
  finish_deletion,
)

Move-transition :
    (p : Project) {from to : State} (now : ℤ)
    → Move from to
    → p.state ≡ from
    → is_ok (transition p to p.version true now) ≡ true
unfolding transition
Move-transition p now pause e = ground (arith, int_beq_iff p.version p.version)
Move-transition p now archive e = ground (arith, int_beq_iff p.version p.version)
Move-transition p now resume e = ground (arith, int_beq_iff p.version p.version)
Move-transition p now shelve e = ground (arith, int_beq_iff p.version p.version)
Move-transition p now restore e = ground (arith, int_beq_iff p.version p.version)
Move-transition p now hold e = ground (arith, int_beq_iff p.version p.version)
Move-transition p now (start_deletion s) e = ground (arith, int_beq_iff p.version p.version)
Move-transition p now finish_deletion e = ground (arith, int_beq_iff p.version p.version)

Repeats-transition :
    (p : Project) (to : State) (now : ℤ)
    → Repeats p.state to
    → is_ok (transition p to p.version true now) ≡ true
unfolding transition
Repeats-transition p to now r = ground (arith, int_beq_iff p.version p.version)

abbrev pub MayMove : Project → State → ℤ → Bool → Type 0
MayMove p to expected_version admin =
    (admin ≡ true) × (expected_version ≡ p.version) × (Move p.state to ⊎ Repeats p.state to)

may_move :
    (p : Project) (to : State) (expected_version : ℤ) (admin : Bool) (now : ℤ)
    → MayMove p to expected_version admin
    → is_ok (transition p to expected_version admin now) ≡ true
may_move p to expected_version admin now (a, v, m) =
    rw (a, v)
      (elim m [
        | inl move ↦ Move-transition p now move refl
        | inr again ↦ Repeats-transition p to now again
      ])

-- `Transition` returns no error exactly for an admin who names the current version and a state that
-- the moves reach, or repeats a pause or an archiving.
pub project_transition_iff :
    (p : Project) (to : State) (expected_version : ℤ) (admin : Bool) (now : ℤ)
    → (is_ok (transition p to expected_version admin now) ≡ true)
      ↔ MayMove p to expected_version admin
project_transition_iff p to expected_version admin now =
    (transition-Move p to expected_version admin now, may_move p to expected_version admin now)

-- A transition of a valid project, below the largest version, gives a valid project in the state asked for;
-- a deleted one has no repositories and no sources and carries the time of its deletion.
pub transition-IsValid :
    (table : ℕ → ℕ) (p : Project) (to : State) (expected_version : ℤ) (admin : Bool) (now : ℤ)
    {p' : Project}
    → IsValid table p
    → p.version <ℤ pos max_int64
    → transition p to expected_version admin now ≡ ok p'
    → IsValid table p'
      × (p'.state ≡ to)
      × ((to ≢ deleted) ⊎ ((p'.repositories ≡ []) × (p'.sources ≡ []) × (p'.deleted_at ≡ some now)))
unfolding transition valid_state
transition-IsValid table p to expected_version admin now v b h =
    ground (arith, inc64_parts p.version)

inc64_ne : (z : ℤ) → inc64 z ≢ z
unfolding inc64
inc64_ne (pos n) e = ground arith
inc64_ne (negsuc zero) e = ground arith
inc64_ne (negsuc (suc n)) e = ground arith

transition-version :
    (p : Project) (to : State) (expected_version : ℤ) (admin : Bool) (now : ℤ) {p' : Project}
    → transition p to expected_version admin now ≡ ok p'
    → (expected_version ≡ p.version) × ((p' ≡ p) ⊎ (p'.version ≡ inc64 p.version))
unfolding transition
transition-version p to expected_version admin now h =
    ground (arith, int_beq_iff expected_version p.version)

stale :
    (p : Project) (to : State) (expected_version : ℤ) (now : ℤ)
    → expected_version ≢ p.version
    → transition p to expected_version true now ≡ err version_conflict
unfolding transition
stale p to expected_version now n = ground (arith, int_beq_iff expected_version p.version)

-- Of two requests that name one version, once the first has changed the project the second gets a
-- version conflict.
pub transition_conflict :
    (p : Project) (to to' : State) (expected_version : ℤ) (now now' : ℤ) {p' : Project}
    → transition p to expected_version true now ≡ ok p'
    → p' ≢ p
    → transition p' to' expected_version true now' ≡ err version_conflict
transition_conflict p to to' expected_version now now' {p'} h d =
    let (e, c) = transition-version p to expected_version true now h in
    stale p' to' expected_version now' ground (arith, inc64_ne p.version)
