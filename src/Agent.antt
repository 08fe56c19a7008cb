-- ===== src/Agent.antt =====
-- The assistant's proposals and confirmations: internal/analysis/agent/service.go, with the store of
-- internal/analysis/agent/memory_store.go. What a service calls is the environment `Env`, over any
-- type of worlds: the planner, the state reader, the executor, the source of identifiers and of
-- tokens, the clock, and SHA-256. Sprintf of a project's resource is its `resource_of`. An int is an
-- integer whose sum is wrapped to 64 bits.
pub mod Store
pub mod Service
pub mod System
pub mod Ends
pub mod Moves
pub mod Once
pub mod Refines
pub mod Replay
mod Examples
use native.Mathlib.Decide.{ℕ_discrete}
use opensource_project_intel.Base.{
  ℕ, Bool, true, false, ◌&&◌, ◌||◌, not, Option, none, some, List, [], ◌∷◌, if◌then◌else◌, Eq, ◌==◌,
  eq_of_discrete, nat_eq,
}
use opensource_project_intel.Base.Int.{ℤ, pos, ◌+ℤ◌, ltb_ℤ, nonpositive, wrap64, int_eq}
use opensource_project_intel.Base.Result.{Result, ok, err}
use opensource_project_intel.Base.Text.{Text, codes, text_eq, is_blank}
use opensource_project_intel.Access

pub data ActionName : Type 0 where
  repository_add : ActionName
  other_action : Text → ActionName

pub data Status : Type 0 where
  awaiting_confirmation executing executed failed expired : Status
  other_status : Text → Status

unfoldable pub ActionName-discrete : Discrete ActionName
ActionName-discrete = hlevel ℕ_discrete

unfoldable pub Status-discrete : Discrete Status
Status-discrete = hlevel ℕ_discrete

instance abbrev pub ActionName_eq : Eq ActionName
ActionName_eq = eq_of_discrete ActionName-discrete

instance abbrev pub Status_eq : Eq Status
Status_eq = eq_of_discrete Status-discrete

-- `access` wraps an error of that package, `foreign` one that a called part returns, and `joined` is
-- errors.Join of two.
pub data Error : Type 0 where
  invalid action_not_allowed proposal_expired already_used state_changed quota_exceeded : Error
  completion_rejected : Error
  access : Access.Error → Error
  foreign : Text → Error
  joined : Error → Error → Error

pub record RepositoryAdd : Type 0 where
  pub project_id : ℤ
  pub project_version : ℤ
  pub url : Text
  pub role : Text

pub record Draft : Type 0 where
  pub action : ActionName
  pub repository : RepositoryAdd
  pub effect : Text
  pub quota_name : Text
  pub quota_cost : ℤ
  pub quota_limit : ℤ
  pub quota_used : ℤ
  pub action_count : ℤ
  pub unrecognized : List Text

-- strings.HasPrefix.
unfoldable pub has_prefix : Text → Text → Bool
has_prefix s [] = true
has_prefix [] (b ∷ prefix) = false
has_prefix (a ∷ s) (b ∷ prefix) = a == b && has_prefix s prefix

abbrev pub no_texts : List Text → Bool
no_texts [] = true
no_texts (_ ∷ _) = false

-- `used+cost > limit` on ints.
unfoldable pub over_quota : ℤ → ℤ → ℤ → Bool
over_quota used cost limit = ltb_ℤ limit (wrap64 (used +ℤ cost))

unfoldable pub validate_draft : Draft → Result Error (Unit {0})
unfolding has_prefix over_quota
validate_draft draft =
    let input = draft.repository in
    if not (draft.action == repository_add)
      || not (draft.action_count == pos 1)
      || not (no_texts draft.unrecognized)
    then err action_not_allowed
    else if nonpositive input.project_id
        || nonpositive input.project_version
        || not (has_prefix input.url (codes "https://"))
        || is_blank input.role
        || is_blank draft.effect
        || not (draft.quota_name == codes "project_repositories")
        || not (draft.quota_cost == pos 1)
        || nonpositive draft.quota_limit
        || ltb_ℤ draft.quota_used (pos 0)
    then err invalid
    else if over_quota draft.quota_used draft.quota_cost draft.quota_limit
    then err quota_exceeded
    else ok tt

pub record Quota : Type 0 where
  pub name : Text
  pub cost : ℤ
  pub remaining : ℤ

-- The result of an execution.
pub record Outcome : Type 0 where
  pub repository_id : ℤ
  pub audit_event_id : ℤ

abbrev pub no_outcome : Outcome
no_outcome = record { repository_id = pos 0; audit_event_id = pos 0 }

pub record Proposal : Type 0 where
  pub id : ℤ
  pub workspace_id : ℤ
  pub actor_id : ℤ
  pub actor_version : ℤ
  pub status : Status
  pub action : ActionName
  pub inputs : RepositoryAdd
  pub resources : List Text
  pub effect : Text
  pub quota : Quota
  pub expires_at : ℤ
  pub confirmation_token : Text
  pub token_digest : List ℕ
  pub created_at : ℤ
  pub consumed_at : Option ℤ
  pub result : Outcome

pub record Snapshot : Type 0 where
  pub project_version : ℤ
  pub lifecycle : Text
  pub quota_used : ℤ
  pub quota_limit : ℤ

-- Planner, StateReader, Executor, IDSource, TokenSource and `now`, and what the code takes from
-- crypto/sha256 and fmt.
pub record Env (W : Type 0) : Type 0 where
  pub plan : Access.Principal → Text → W → Result Error Draft × W
  pub snapshot : Access.Principal → RepositoryAdd → W → Result Error Snapshot × W
  pub add_repository : Access.Principal → RepositoryAdd → Text → W → Result Error Outcome × W
  pub next_id : W → Result Error ℤ × W
  pub token : W → Result Error Text × W
  pub clock : W → ℤ × W
  pub sha256 : Text → List ℕ
  pub resource_of : ℤ → Text
