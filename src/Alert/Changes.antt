-- ===== src/Alert/Changes.antt =====
-- The changes that members make to occurrences: `Transition` and `MarkRead` of
-- internal/alert/alert.go.
use opensource_project_intel.Base.{
  ◌≡◌, refl, sym, ◌∙◌, ap, ◌↔◌, Bool, true, false, ◌||◌, not, ◌==◌, arith,
}
use opensource_project_intel.Base.Int.{ℤ, inc64, int_eq, int_beq_iff}
use opensource_project_intel.Base.Result.{Result, ok, err, ◌>>◌, fail_if}
use opensource_project_intel.Base.Text.{Text, is_blank, trim_space}
use opensource_project_intel.Access
use opensource_project_intel.Access.{Principal, authorize, project_write}
use opensource_project_intel.Alert.{
  Error, State, open_state, acknowledged, resolved, dismissed, other_state, Occurrence,
  allowed_transition, transition, State-discrete, in_access,
}

-- The changes of state: an occurrence is acknowledged, resolved or dismissed, and any of these is
-- opened again; what is acknowledged is also resolved or dismissed.
pub data Change : State → State → Type 0 where
  acknowledges : Change open_state acknowledged
  resolves : Change open_state resolved
  dismisses : Change open_state dismissed
  reopens : Change acknowledged open_state
  resolves_later : Change acknowledged resolved
  dismisses_later : Change acknowledged dismissed
  reopens_resolved : Change resolved open_state
  reopens_dismissed : Change dismissed open_state

allowed_transition-Change : (from to : State) → allowed_transition from to ≡ true → Change from to
unfolding allowed_transition State-discrete
allowed_transition-Change open_state acknowledged h = acknowledges
allowed_transition-Change open_state resolved h = resolves
allowed_transition-Change open_state dismissed h = dismisses
allowed_transition-Change open_state open_state h = cc
allowed_transition-Change open_state (other_state _) h = cc
allowed_transition-Change acknowledged open_state h = reopens
allowed_transition-Change acknowledged resolved h = resolves_later
allowed_transition-Change acknowledged dismissed h = dismisses_later
allowed_transition-Change acknowledged acknowledged h = cc
allowed_transition-Change acknowledged (other_state _) h = cc
allowed_transition-Change resolved open_state h = reopens_resolved
allowed_transition-Change resolved acknowledged h = cc
allowed_transition-Change resolved resolved h = cc
allowed_transition-Change resolved dismissed h = cc
allowed_transition-Change resolved (other_state _) h = cc
allowed_transition-Change dismissed open_state h = reopens_dismissed
allowed_transition-Change dismissed acknowledged h = cc
allowed_transition-Change dismissed resolved h = cc
allowed_transition-Change dismissed dismissed h = cc
allowed_transition-Change dismissed (other_state _) h = cc
allowed_transition-Change (other_state _) to h = cc

Change-allowed : {from to : State} → Change from to → allowed_transition from to ≡ true
unfolding allowed_transition State-discrete
Change-allowed acknowledges = refl
Change-allowed resolves = refl
Change-allowed dismisses = refl
Change-allowed reopens = refl
Change-allowed resolves_later = refl
Change-allowed dismisses_later = refl
Change-allowed reopens_resolved = refl
Change-allowed reopens_dismissed = refl

-- A call that is authorized and passes two checks.
guarded-ok :
    {A : Type 0} (r : Result Access.Error (Unit {0})) (b c : Bool) (e f : Error) {x y : A}
    → (in_access r >> fail_if b e >> fail_if c f >> ok x) ≡ ok y
    → (r ≡ ok tt) × (b ≡ false) × (c ≡ false) × (y ≡ x)
guarded-ok (ok _) false false e f h = (refl, refl, refl, cc)
guarded-ok (ok _) false true e f h = cc
guarded-ok (ok _) true c e f h = cc
guarded-ok (err _) b c e f h = cc

passes-guards :
    {A : Type 0} (r : Result Access.Error (Unit {0})) (b c : Bool) (e f : Error) {x : A}
    → r ≡ ok tt
    → b ≡ false
    → c ≡ false
    → (in_access r >> fail_if b e >> fail_if c f >> ok x) ≡ ok x
passes-guards (ok _) false false e f p q s = refl
passes-guards (ok _) false true e f p q s = cc
passes-guards (ok _) true c e f p q s = cc
passes-guards (err _) b c e f p q s = cc

-- `Transition` returns the changed occurrence exactly when the principal may write projects, the
-- revision is the expected one, the reason is not blank and the state may change so; then it has
-- the new state, the trimmed reason, the principal and the next revision, and is otherwise as it
-- was.
pub alert_transition_iff :
    (principal : Principal) (o : Occurrence) (to : State) (reason : Text) (revision : ℤ)
    (after : Occurrence)
    → (transition principal o to reason revision ≡ ok after) ↔ (
        (authorize principal project_write ≡ ok tt)
        × (o.revision ≡ revision)
        × (is_blank reason ≡ false)
        × Change o.state to
        × (after ≡ record o {
          state = to;
          transition_reason = trim_space reason;
          transitioned_by = principal.actor_id;
          revision = inc64 o.revision;
        }))
unfolding transition
alert_transition_iff principal o to reason revision after =
    let stale = not (o.revision == revision) in
    let refused = is_blank reason || not (allowed_transition o.state to) in
    (
      λ h.
          let (authorized, fresh, sound, same) =
            guarded-ok (authorize principal project_write) stale refused _ _ h in
          let current : o.revision ≡ revision = ground (arith, int_beq_iff o.revision revision) in
          let allowed : allowed_transition o.state to ≡ true = ground arith in
          (authorized, current, ground arith, allowed_transition-Change o.state to allowed, same),
      λ (authorized, current, said, change, same).
          let fresh : stale ≡ false = ground (arith, int_beq_iff o.revision revision) in
          let sound : refused ≡ false = ground (arith, Change-allowed change) in
          passes-guards (authorize principal project_write) stale refused _ _ authorized fresh sound
          ∙ ap ok (sym same),
    )
