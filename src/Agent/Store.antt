-- ===== src/Agent/Store.antt =====
-- The store of internal/analysis/agent/memory_store.go. Each method holds the mutex for the whole of
-- it, so it is one step. The maps are functions; the text `%d:%d:%s` that keys `creates` is its
-- three parts, which it determines. subtle.ConstantTimeCompare is equality.
use opensource_project_intel.Base.{
  ℕ, zero, suc, Bool, true, false, ◌&&◌, ◌||◌, not, Option, none, some, List, [], ◌∷◌,
  if◌then◌else◌, ◌==◌,
}
use opensource_project_intel.Base.Int.{ℤ, pos, ltb_ℤ, int_eq}
use opensource_project_intel.Base.Result.{Result, ok, err}
use opensource_project_intel.Base.Text.{Text, text_eq}
use opensource_project_intel.Access
use opensource_project_intel.Agent.{
  other_action, Status, awaiting_confirmation, executing, executed, failed, expired, other_status,
  Status_eq, Error, proposal_expired, already_used, state_changed, completion_rejected, access,
  Outcome, no_outcome, Proposal,
}

pub record MemoryRecord : Type 0 where
  pub proposal : Proposal
  pub create_key : Text
  pub create_digest : List ℕ
  pub confirmation_key : Text

pub record MemoryStore : Type 0 where
  pub values : ℤ → Option MemoryRecord
  pub creates : ℤ → ℤ → Text → Option ℤ

unfoldable pub new_memory_store : MemoryStore
new_memory_store = record { values = λ _. none; creates = λ _ _ _. none }

-- `store.values[id] = record`.
unfoldable pub put : ℤ → MemoryRecord → MemoryStore → MemoryStore
put id value store = record store { values = λ k. if k == id then some value else store.values k }

-- `store.creates[identity] = id`.
unfoldable pub put_create : ℤ → ℤ → Text → ℤ → MemoryStore → MemoryStore
put_create workspace actor key id store = record store {
  creates =
      λ w a k. if w == workspace && a == actor && k == key then some id else store.creates w a k;
}

abbrev zeros : ℕ → List ℕ
zeros zero = []
zeros (suc n) = 0 ∷ zeros n

-- The zero value that a missing key reads as.
abbrev pub zero_record : MemoryRecord
zero_record = record {
  proposal = record {
    id = pos 0;
    workspace_id = pos 0;
    actor_id = pos 0;
    actor_version = pos 0;
    status = other_status [];
    action = other_action [];
    inputs = record { project_id = pos 0; project_version = pos 0; url = []; role = [] };
    resources = [];
    effect = [];
    quota = record { name = []; cost = pos 0; remaining = pos 0 };
    expires_at = pos 0;
    confirmation_token = [];
    token_digest = zeros 32;
    created_at = pos 0;
    consumed_at = none;
    result = no_outcome;
  };
  create_key = [];
  create_digest = zeros 32;
  confirmation_key = [];
}

abbrev pub or_zero : Option MemoryRecord → MemoryRecord
or_zero none = zero_record
or_zero (some r) = r

-- What `Create` does with the identifier that it finds under the identity.
unfoldable pub create_found :
    Proposal → Text → List ℕ → MemoryStore → Option ℤ → Result Error (Proposal × Bool) × MemoryStore
unfolding put put_create
create_found proposal key digest store none = (
  ok (proposal, false),
  put_create proposal.workspace_id proposal.actor_id key proposal.id (
      put proposal.id
        (record {
          proposal = proposal;
          create_key = key;
          create_digest = digest;
          confirmation_key = [];
        })
        store),
)
create_found proposal key digest store (some id) =
    let found = or_zero (store.values id) in
    if not (found.create_digest == digest)
    then (err state_changed, store)
    else (ok (found.proposal, true), store)

-- The flag beside the proposal says that it was created before.
unfoldable pub create :
    Proposal → Text → List ℕ → MemoryStore → Result Error (Proposal × Bool) × MemoryStore
unfolding create_found
create proposal key digest store =
    create_found proposal key digest store
      (store.creates proposal.workspace_id proposal.actor_id key)

abbrev pub completed : Status → Bool
completed status = status == executed || status == failed

-- The record that `Begin` writes for a confirmation.
abbrev pub begun : MemoryRecord → Text → ℤ → MemoryRecord
begun value key now =
    let proposal = value.proposal in
    record value {
      confirmation_key = key;
      proposal = record proposal { status = executing; consumed_at = some now };
    }

abbrev pub lapsed : MemoryRecord → MemoryRecord
lapsed value =
    let proposal = value.proposal in
    record value { proposal = record proposal { status = expired } }

unfoldable pub begin_found :
    ℤ
    → Access.Principal
    → List ℕ
    → Text
    → ℤ
    → MemoryStore
    → Option MemoryRecord
    → Result Error (Proposal × Bool) × MemoryStore
unfolding put
begin_found id principal token key now store none = (err (access Access.not_found), store)
begin_found id principal token key now store (some value) =
    let proposal = value.proposal in
    if not (proposal.workspace_id == principal.workspace)
      || not (proposal.actor_id == principal.actor_id)
    then (err (access Access.permission_denied), store)
    else if value.confirmation_key == key && completed proposal.status
    then (ok (proposal, true), store)
    else if not (value.confirmation_key == []) || not (proposal.status == awaiting_confirmation)
    then (err already_used, store)
    else if not (ltb_ℤ now proposal.expires_at)
    then (err proposal_expired, put id (lapsed value) store)
    else if not (proposal.token_digest == token)
    then (err (access Access.permission_denied), store)
    else let written = begun value key now in (ok (written.proposal, false), put id written store)

-- The flag beside the proposal says that the confirmation is a replay.
unfoldable pub begin :
    ℤ
    → Access.Principal
    → List ℕ
    → Text
    → ℤ
    → MemoryStore
    → Result Error (Proposal × Bool) × MemoryStore
unfolding begin_found
begin id principal token key now store =
    begin_found id principal token key now store (store.values id)

abbrev pub or_now : Option ℤ → ℤ → Option ℤ
or_now none at = some at
or_now (some earlier) at = some earlier

abbrev pub finished : MemoryRecord → Status → Outcome → ℤ → MemoryRecord
finished value status result at =
    let proposal = value.proposal in
    record value {
      proposal = record proposal {
        status = status;
        result = result;
        consumed_at = or_now proposal.consumed_at at;
      };
    }

unfoldable pub finish_found :
    ℤ
    → Status
    → Outcome
    → ℤ
    → MemoryStore
    → Option MemoryRecord
    → Result Error Proposal × MemoryStore
unfolding put
finish_found id status result at store none = (err (access Access.not_found), store)
finish_found id status result at store (some value) =
    let proposal = value.proposal in
    if not (proposal.status == executing) || not (completed status)
    then (err completion_rejected, store)
    else let written = finished value status result at in
      (ok written.proposal, put id written store)

unfoldable pub finish : ℤ → Status → Outcome → ℤ → MemoryStore → Result Error Proposal × MemoryStore
unfolding finish_found
finish id status result at store = finish_found id status result at store (store.values id)
