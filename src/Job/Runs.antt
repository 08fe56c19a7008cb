-- ===== src/Job/Runs.antt =====
-- What holds of a job over every sequence of calls (internal/job/job.go).
use opensource_project_intel.Base.{
  ◌≡◌, refl, ◌∙◌, ◌↔◌, ◌⊎◌, inl, inr, Bool, true, Option, none, some, List, [], ◌∷◌, arith,
}
use opensource_project_intel.Base.Int.{ℤ, ◌≤ℤ◌}
use opensource_project_intel.Base.Result.{Result, ok, err, is_ok}
use opensource_project_intel.Base.Text.{Text, text_eq}
use opensource_project_intel.Job.{
  State, queued, running, succeeded, failed, cancelled, Error, Checkpoint, Job, new, transition,
  cancel, claim, commit_page, coalesce, terminal,
}
use opensource_project_intel.Job.Invariant.{
  Op, transition_op, cancel_op, claim_op, commit_op, coalesce_op, apply, kept, run, IsValid,
  new-IsValid, transition-IsValid, cancel-IsValid, claim-IsValid, commit_page-IsValid,
  coalesce-IsValid,
}

kept-IsValid :
    (j : Job) (r : Result Error Job)
    → IsValid j
    → ((j' : Job) → r ≡ ok j' → IsValid j')
    → IsValid (kept j r)
kept-IsValid j (ok j') v h = h j' refl
kept-IsValid j (err e) v h = v

apply-IsValid : (j : Job) (op : Op) {j' : Job} → IsValid j → apply j op ≡ ok j' → IsValid j'
unfolding apply
apply-IsValid j (transition_op to now failure) v h = transition-IsValid j to now failure v h
apply-IsValid j (cancel_op now) v h = cancel-IsValid j now v h
apply-IsValid j (claim_op holder now ttl) v h = claim-IsValid j holder now ttl v h
apply-IsValid j (commit_op holder completed checkpoint now) v h =
    commit_page-IsValid j holder completed checkpoint now v h
apply-IsValid j coalesce_op v h = ground (arith, coalesce-IsValid j v)

run-IsValid : (j : Job) (ops : List Op) → IsValid j → IsValid (run j ops)
unfolding run
run-IsValid j [] v = v
run-IsValid j (op ∷ ops) v =
    run-IsValid (kept j (apply j op)) ops
      (kept-IsValid j (apply j op) v (λ j' e. apply-IsValid j op v e))

-- A job that `New` made satisfies the invariant after any sequence of calls, whatever their
-- arguments and times, the calls that return an error included.
pub new-run-IsValid :
    (id project_id : ℤ) (kind unit : Text) (total : Option ℤ) (cancellable : Bool) (now : ℤ)
    {j : Job} (ops : List Op)
    → new id project_id kind unit total cancellable now ≡ ok j
    → IsValid (run j ops)
new-run-IsValid id project_id kind unit total cancellable now {j} ops h =
    run-IsValid j ops (new-IsValid id project_id kind unit total cancellable now h)

apply-terminal : (j : Job) (op : Op) → terminal j.state ≡ true → kept j (apply j op) ≡ j
unfolding apply transition cancel claim commit_page coalesce terminal
apply-terminal j (transition_op to now failure) t = ground arith
apply-terminal j (cancel_op now) t = ground arith
apply-terminal j (claim_op holder now ttl) t = ground arith
apply-terminal j (commit_op holder completed checkpoint now) t = ground arith
apply-terminal j coalesce_op t = ground arith

-- A succeeded, failed or cancelled job stays as it is, every field of it, under any sequence of
-- calls.
pub run-terminal : (j : Job) (ops : List Op) → terminal j.state ≡ true → run j ops ≡ j
unfolding run
run-terminal j [] t = refl
run-terminal j (op ∷ ops) t = rw (apply-terminal j op t) (run-terminal j ops t)

-- The diagram of a job's states.
pub data Edge : State → State → Type 0 where
  start : Edge queued running
  fail_queued : Edge queued failed
  cancel_queued : Edge queued cancelled
  succeed : Edge running succeeded
  fail_running : Edge running failed
  cancel_running : Edge running cancelled

abbrev pub Allows : Job → State → Type 0
Allows j to = Edge j.state to ⊎ ((terminal j.state ≡ true) × (j.state ≡ to))

transition-Edge :
    (j : Job) (to : State) (now : ℤ) (failure : Text)
    → is_ok (transition j to now failure) ≡ true
    → Allows j to
unfolding transition
transition-Edge j to now failure h =
    grind (arith, start, fail_queued, cancel_queued, succeed, fail_running, cancel_running)

Edge-is_ok :
    (j : Job) {from to : State} (now : ℤ) (failure : Text)
    → Edge from to
    → j.state ≡ from
    → is_ok (transition j to now failure) ≡ true
unfolding transition
Edge-is_ok j now failure start e = ground arith
Edge-is_ok j now failure fail_queued e = ground arith
Edge-is_ok j now failure cancel_queued e = ground arith
Edge-is_ok j now failure succeed e = ground arith
Edge-is_ok j now failure fail_running e = ground arith
Edge-is_ok j now failure cancel_running e = ground arith

-- `Transition` returns no error exactly along an edge of the diagram, or from a terminal state to
-- itself.
pub transition_iff :
    (j : Job) (to : State) (now : ℤ) (failure : Text)
    → (is_ok (transition j to now failure) ≡ true) ↔ Allows j to
unfolding transition
transition_iff j to now failure = (
  transition-Edge j to now failure,
  elim [ inl e ↦ Edge-is_ok j now failure e refl | inr (t, e) ↦ ground arith ],
)

-- What an operation on a job may not undo: the pages done, and the checkpoint's version.
abbrev pub IsBehind : Option Checkpoint → Option Checkpoint → Type 0
IsBehind none c = Unit
IsBehind (some c) none = ⊥
IsBehind (some c) (some c') = c.version ≤ℤ c'.version

abbrev pub Progressed : Job → Job → Type 0
Progressed j j' =
    (j.progress.completed ≤ℤ j'.progress.completed)
    × IsBehind j.checkpoint j'.checkpoint
    × (j'.id ≡ j.id)
    × (j'.progress.total ≡ j.progress.total)

IsBehind-refl : (c : Option Checkpoint) → IsBehind c c
IsBehind-refl none = tt
IsBehind-refl (some c) = omega arith

IsBehind-trans : (a b c : Option Checkpoint) → IsBehind a b → IsBehind b c → IsBehind a c
IsBehind-trans none b c p q = tt
IsBehind-trans (some a) none c p q = absurd p
IsBehind-trans (some a) (some b) none p q = q
IsBehind-trans (some a) (some b) (some c) p q = omega arith

apply-Progressed : (j : Job) (op : Op) → Progressed j (kept j (apply j op))
unfolding apply transition cancel claim commit_page coalesce
apply-Progressed j (transition_op to now failure) = ground (arith, IsBehind-refl j.checkpoint)
apply-Progressed j (cancel_op now) = ground (arith, IsBehind-refl j.checkpoint)
apply-Progressed j (claim_op holder now ttl) = ground (arith, IsBehind-refl j.checkpoint)
apply-Progressed j (commit_op holder completed checkpoint now) =
    ground (arith, IsBehind-refl j.checkpoint)
apply-Progressed j coalesce_op = ground (arith, IsBehind-refl j.checkpoint)

-- No sequence of calls lowers the completed count, drops the checkpoint or lowers its version, or
-- changes the identifier or the total.
pub run-Progressed : (j : Job) (ops : List Op) → Progressed j (run j ops)
unfolding run
run-Progressed j [] = (omega arith, IsBehind-refl j.checkpoint, refl, refl)
run-Progressed j (op ∷ ops) =
    let j' : Job = kept j (apply j op) in
    let first = apply-Progressed j op in
    let later = run-Progressed j' ops in
    (
      omega arith,
      IsBehind-trans j.checkpoint j'.checkpoint (run j' ops).checkpoint first.1 later.1,
      later.2 ∙ first.2,
      later.3 ∙ first.3,
    )
