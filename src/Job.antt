-- ===== src/Job.antt =====
-- The durable job of internal/job/job.go: its record and every method. A method of the value
-- receiver `Job` returns the changed record or the error; `Job{}` beside an error is dropped.
pub mod Invariant
pub mod Runs
pub mod Lease
pub mod Completion
mod Examples
use native.Mathlib.Decide.{ℕ_discrete}
use opensource_project_intel.Base.{
  Bool, true, false, ◌&&◌, ◌||◌, not, Option, none, some, List, [], ◌∷◌, if◌then◌else◌, Eq, ◌==◌,
  eq_of_discrete,
}
use opensource_project_intel.Base.Int.{ℤ, pos, ◌+ℤ◌, ltb_ℤ, leb_ℤ, nonpositive, inc64, int_eq}
use opensource_project_intel.Base.Lists.{contains}
use opensource_project_intel.Base.Result.{Result, ok, err}
use opensource_project_intel.Base.Text.{Text, codes, text_eq, is_blank, trim_space}

-- `other` is any string that is none of the five constants.
pub data State : Type 0 where
  queued running succeeded failed cancelled : State
  other : Text → State

unfoldable pub State-discrete : Discrete State
State-discrete = hlevel ℕ_discrete

instance abbrev pub State_eq : Eq State
State_eq = eq_of_discrete State-discrete

pub data Error : Type 0 where
  invalid conflict lease_unavailable : Error

pub record Progress : Type 0 where
  pub completed : ℤ
  pub total : Option ℤ
  pub total_status : Text
  pub unit : Text

pub record Checkpoint : Type 0 where
  pub scope : Text
  pub cursor : Text
  pub coverage_to : ℤ
  pub version : ℤ

pub record Job : Type 0 where
  pub id : ℤ
  pub project_id : ℤ
  pub kind : Text
  pub state : State
  pub progress : Progress
  pub checkpoint : Option Checkpoint
  pub requested_from : Option ℤ
  pub requested_to : Option ℤ
  pub version : ℤ
  pub coalesced_requests : ℤ
  pub cancellable : Bool
  pub lease_holder : Text
  pub lease_expires_at : Option ℤ
  pub created_at : ℤ
  pub started_at : Option ℤ
  pub updated_at : ℤ
  pub finished_at : Option ℤ
  pub failure : Text

unfoldable pub terminal : State → Bool
terminal succeeded = true
terminal failed = true
terminal cancelled = true
terminal _ = false

-- `total != nil && *total < 0`.
negative_total : Option ℤ → Bool
negative_total none = false
negative_total (some t) = ltb_ℤ t (pos 0)

unknown_total : Option ℤ → Text
unknown_total none = codes "unknown"
unknown_total (some _) = []

unfoldable pub new : ℤ → ℤ → Text → Text → Option ℤ → Bool → ℤ → Result Error Job
unfolding negative_total unknown_total
new id project_id kind unit total cancellable now =
    if nonpositive id || is_blank kind || is_blank unit || negative_total total
    then err invalid
    else ok (record {
      id = id;
      project_id = project_id;
      kind = kind;
      state = queued;
      progress = record {
        completed = pos 0;
        total = total;
        total_status = unknown_total total;
        unit = unit;
      };
      checkpoint = none;
      requested_from = none;
      requested_to = none;
      version = pos 1;
      coalesced_requests = pos 0;
      cancellable = cancellable;
      lease_holder = [];
      lease_expires_at = none;
      created_at = now;
      started_at = none;
      updated_at = now;
      finished_at = none;
      failure = [];
    })

-- The map `allowed` of `Transition`; a missing key gives the empty slice.
unfoldable pub allowed : State → List State
allowed queued = running ∷ failed ∷ cancelled ∷ []
allowed running = succeeded ∷ failed ∷ cancelled ∷ []
allowed _ = []

-- `if to == Running && j.StartedAt == nil { j.StartedAt = &now }`.
start_at : State → Option ℤ → ℤ → Option ℤ
start_at running none now = some now
start_at _ started now = started

-- The assignments of `Transition` once the transition is allowed.
enter : Job → State → ℤ → Text → Job
unfolding terminal start_at
enter j to now failure =
    let moved = record j {
      state = to;
      version = inc64 j.version;
      updated_at = now;
      started_at = start_at to j.started_at now;
    } in
    let closed =
      if terminal to
      then record moved { finished_at = some now; lease_holder = []; lease_expires_at = none }
      else moved in
    if to == failed then record closed { failure = trim_space failure } else closed

unfoldable pub transition : Job → State → ℤ → Text → Result Error Job
unfolding terminal allowed enter
transition j to now failure =
    if terminal j.state
    then (if j.state == to then ok j else err conflict)
    else if not (contains (allowed j.state) to)
    then err conflict
    else ok (enter j to now failure)

unfoldable pub cancel : Job → ℤ → Result Error Job
unfolding transition
cancel j now = if not j.cancellable then err conflict else transition j cancelled now []

-- `j.LeaseExpiresAt != nil && j.LeaseExpiresAt.After(now)`.
unfoldable pub lease_live : Option ℤ → ℤ → Bool
lease_live none now = false
lease_live (some expires) now = ltb_ℤ now expires

unfoldable pub claim : Job → Text → ℤ → ℤ → Result Error Job
unfolding terminal transition lease_live
claim j holder now ttl =
    if is_blank holder || nonpositive ttl || terminal j.state
    then err invalid
    else if lease_live j.lease_expires_at now && not (j.lease_holder == holder)
    then err lease_unavailable
    else let leased = record j {
      lease_holder = holder;
      lease_expires_at = some (now +ℤ ttl);
      version = inc64 j.version;
      updated_at = now;
    } in
      if j.state == queued then transition leased running now [] else ok leased

-- `j.Progress.Total != nil && completed > *j.Progress.Total`.
beyond_total : ℤ → Option ℤ → Bool
beyond_total completed none = false
beyond_total completed (some total) = ltb_ℤ total completed

-- `j.Checkpoint != nil && checkpoint.Version <= j.Checkpoint.Version`.
stale_checkpoint : ℤ → Option Checkpoint → Bool
stale_checkpoint version none = false
stale_checkpoint version (some prior) = leb_ℤ version prior.version

unfoldable pub commit_page : Job → Text → ℤ → Checkpoint → ℤ → Result Error Job
unfolding lease_live beyond_total stale_checkpoint
commit_page j holder completed checkpoint now =
    if not (j.state == running)
      || not (j.lease_holder == holder)
      || not (lease_live j.lease_expires_at now)
      || ltb_ℤ completed j.progress.completed
      || beyond_total completed j.progress.total
      || nonpositive checkpoint.version
    then err conflict
    else if stale_checkpoint checkpoint.version j.checkpoint
    then err conflict
    else let progress = j.progress in
      ok (record j {
        progress = record progress { completed = completed };
        checkpoint = some checkpoint;
        version = inc64 j.version;
        updated_at = now;
      })

unfoldable pub coalesce : Job → Job
unfolding terminal
coalesce j =
    if not (terminal j.state)
    then record j { coalesced_requests = inc64 j.coalesced_requests; version = inc64 j.version }
    else j
