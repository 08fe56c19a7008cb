-- ===== src/Job/Invariant.antt =====
-- What holds of a job between two calls of its methods (internal/job/job.go).
use opensource_project_intel.Base.{
  ◌≡◌, ◌≢◌, Bool, true, false, Option, none, some, List, [], ◌∷◌, arith,
}
use opensource_project_intel.Base.Int.{ℤ, pos, ◌≤ℤ◌, ◌<ℤ◌}
use opensource_project_intel.Base.Result.{Result, ok, err}
use opensource_project_intel.Base.Text.{Text}
use opensource_project_intel.Job.{
  State, queued, running, succeeded, other, Error, Checkpoint, Job, new, transition, cancel, claim,
  commit_page, coalesce, terminal,
}

-- A call on a job.
pub data Op : Type 0 where
  transition_op : State → ℤ → Text → Op
  cancel_op : ℤ → Op
  claim_op : Text → ℤ → ℤ → Op
  commit_op : Text → ℤ → Checkpoint → ℤ → Op
  coalesce_op : Op

unfoldable pub apply : Job → Op → Result Error Job
apply j (transition_op to now failure) = transition j to now failure
apply j (cancel_op now) = cancel j now
apply j (claim_op holder now ttl) = claim j holder now ttl
apply j (commit_op holder completed checkpoint now) = commit_page j holder completed checkpoint now
apply j coalesce_op = ok (coalesce j)

-- A caller keeps its job when a method returns an error.
abbrev pub kept : Job → Result Error Job → Job
kept j (ok j') = j'
kept j (err e) = j

unfoldable pub run : Job → List Op → Job
run j [] = j
run j (op ∷ ops) = run (kept j (apply j op)) ops

abbrev pub IsWithin : ℤ → Option ℤ → Type 0
IsWithin completed none = Unit
IsWithin completed (some total) = completed ≤ℤ total

abbrev pub IsAdvanced : Option Checkpoint → Type 0
IsAdvanced none = Unit
IsAdvanced (some c) = pos 0 <ℤ c.version

abbrev pub IsKnown : State → Type 0
IsKnown (other t) = ⊥
IsKnown _ = Unit

pub record IsValid (j : Job) : Type 0 where
  pub identified : pos 0 <ℤ j.id
  pub known : IsKnown j.state
  pub queued_fresh :
      j.state ≡ queued → (j.started_at ≡ none) × (j.lease_expires_at ≡ none) × (j.checkpoint ≡ none)
  pub running_started : j.state ≡ running → j.started_at ≢ none
  pub succeeded_started : j.state ≡ succeeded → j.started_at ≢ none
  pub terminal_released :
      terminal j.state ≡ true
      → (j.finished_at ≢ none) × (j.lease_holder ≡ []) × (j.lease_expires_at ≡ none)
  pub open_unfinished : terminal j.state ≡ false → j.finished_at ≡ none
  pub nonnegative : pos 0 ≤ℤ j.progress.completed
  pub within : IsWithin j.progress.completed j.progress.total
  pub advanced : IsAdvanced j.checkpoint

pub new-IsValid :
    (id project_id : ℤ) (kind unit : Text) (total : Option ℤ) (cancellable : Bool) (now : ℤ)
    {j : Job}
    → new id project_id kind unit total cancellable now ≡ ok j
    → IsValid j
unfolding new terminal
new-IsValid id project_id kind unit none cancellable now h = ground arith
new-IsValid id project_id kind unit (some t) cancellable now h = ground arith

pub transition-IsValid :
    (j : Job) (to : State) (now : ℤ) (failure : Text) {j' : Job}
    → IsValid j
    → transition j to now failure ≡ ok j'
    → IsValid j'
unfolding transition
transition-IsValid j to now failure v h = ground arith

pub coalesce-IsValid : (j : Job) → IsValid j → IsValid (coalesce j)
unfolding coalesce terminal
coalesce-IsValid j v = ground arith

pub commit_page-IsValid :
    (j : Job) (holder : Text) (completed : ℤ) (checkpoint : Checkpoint) (now : ℤ) {j' : Job}
    → IsValid j
    → commit_page j holder completed checkpoint now ≡ ok j'
    → IsValid j'
unfolding commit_page terminal
commit_page-IsValid j holder completed checkpoint now v h = ground arith

pub claim-IsValid :
    (j : Job) (holder : Text) (now ttl : ℤ) {j' : Job}
    → IsValid j
    → claim j holder now ttl ≡ ok j'
    → IsValid j'
unfolding claim
claim-IsValid j holder now ttl v h = ground arith

pub cancel-IsValid : (j : Job) (now : ℤ) {j' : Job} → IsValid j → cancel j now ≡ ok j' → IsValid j'
unfolding cancel
cancel-IsValid j now v h = ground arith
