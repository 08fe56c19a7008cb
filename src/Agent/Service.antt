-- ===== src/Agent/Service.antt =====
-- `Propose` and `Confirm` of internal/analysis/agent/service.go, over the store in memory.
use opensource_project_intel.Base.{
  Bool, true, false, ◌||◌, not, none, [], ◌∷◌, if◌then◌else◌, ltb, ◌==◌,
}
use opensource_project_intel.Base.Int.{ℤ, pos, ◌+ℤ◌, ◌-ℤ◌, nonpositive, wrap64, int_eq}
use opensource_project_intel.Base.Result.{Result, ok, err, fail_if}
use opensource_project_intel.Base.Stateful.{Action, ◌>>=◌, pure}
use opensource_project_intel.Base.Text.{Text, codes, text_eq, is_blank, trim_space, byte_length}
use opensource_project_intel.Access
use opensource_project_intel.Access.{Principal, authorize, project_write}
use opensource_project_intel.Agent.{
  awaiting_confirmation, executed, failed, Error, invalid, state_changed, quota_exceeded, access,
  joined, Draft, over_quota, validate_draft, Outcome, no_outcome, Proposal, Snapshot, Env,
}
use opensource_project_intel.Agent.Store.{MemoryStore, create, begin, finish}

-- The service's state: the store and the rest of the world.
abbrev pub State : Type 0 → Type 0
State W = MemoryStore × W

-- `ProposalLifetime` in nanoseconds.
abbrev pub proposal_lifetime : ℤ
proposal_lifetime = pos 600_000_000_000

-- A call of the world, and a call of the store.
abbrev pub outside : {A W : Type 0} → (W → Result Error A × W) → Action (State W) Error A
outside call (store, w) = let (r, w') = call w in (r, (store, w'))

abbrev pub stored :
    {A W : Type 0} → (MemoryStore → Result Error A × MemoryStore) → Action (State W) Error A
stored call (store, w) = let (r, store') = call store in (r, (store', w))

abbrev pub in_access : {A : Type 0} → Result Access.Error A → Result Error A
in_access (ok a) = ok a
in_access (err e) = err (access e)

-- `snapshot.Lifecycle != "active" || snapshot.ProjectVersion != version`.
unfoldable pub moved_on : Snapshot → ℤ → Bool
moved_on snapshot version =
    not (snapshot.lifecycle == codes "active") || not (snapshot.project_version == version)

module _ {W : Type 0} (env : Env W) where
  abbrev clock : Action (State W) Error ℤ
  clock (store, w) = let (now, w') = env.clock w in (ok now, (store, w'))

  -- The proposal of `Propose`.
  unfoldable pub proposal_of : Principal → Draft → Snapshot → ℤ → Text → ℤ → Proposal
  proposal_of principal draft snapshot id token now =
      let input = draft.repository in
      record {
        id = id;
        workspace_id = principal.workspace;
        actor_id = principal.actor_id;
        actor_version = principal.version;
        status = awaiting_confirmation;
        action = draft.action;
        inputs = input;
        resources = env.resource_of input.project_id ∷ input.url ∷ [];
        effect = draft.effect;
        quota = record {
          name = draft.quota_name;
          cost = draft.quota_cost;
          remaining = wrap64 (snapshot.quota_limit -ℤ snapshot.quota_used -ℤ draft.quota_cost);
        };
        expires_at = now +ℤ proposal_lifetime;
        confirmation_token = [];
        token_digest = env.sha256 token;
        created_at = now;
        consumed_at = none;
        result = no_outcome;
      }

  -- `if !replay { created.ConfirmationToken = token }`.
  abbrev pub with_token : Text → Proposal × Bool → Proposal
  with_token token (created, replay) =
      if not replay then record created { confirmation_token = token } else created

  unfoldable pub propose : Principal → Text → Text → Action (State W) Error Proposal
  unfolding proposal_of moved_on
  propose principal message key = do
    _ ← pure (in_access (authorize principal project_write))
    let message' = trim_space message
    let key' = trim_space key
    _ ← pure (fail_if (message' == [] || ltb 4000 (byte_length message') || key' == []) invalid)
    draft ← outside (env.plan principal message')
    _ ← pure (validate_draft draft)
    let input = draft.repository
    snapshot ← outside (env.snapshot principal input)
    _ ← pure (fail_if (moved_on snapshot input.project_version) state_changed)
    _ ← pure (
        fail_if
          (nonpositive snapshot.quota_limit
            || over_quota snapshot.quota_used draft.quota_cost snapshot.quota_limit)
          quota_exceeded)
    id ← outside env.next_id
    token ← outside env.token
    now ← clock
    created ← stored (
        create (proposal_of principal draft snapshot id token now) key'
          (env.sha256 (trim_space message')))
    pure (ok (with_token token created))

  -- The call of `finish` whose results are dropped, before `error` is returned.
  unfoldable pub give_up : Proposal → Error → Action (State W) Error Proposal
  give_up proposal error s =
      let (_, s') = (clock >>= λ at. stored (finish proposal.id failed no_outcome at)) s in
      (err error, s')

  -- errors.Join of the executor's error and of the one that `finish` returns, if any.
  abbrev join_with : Error → Result Error Proposal → Error
  join_with error (ok _) = error
  join_with error (err other) = joined error other

  -- What follows the call of the executor.
  unfoldable pub settle : Proposal → Result Error Outcome → Action (State W) Error Proposal
  settle proposal (ok result) s = (clock >>= λ at. stored (finish proposal.id executed result at)) s
  settle proposal (err error) s =
      let (r, s') = (clock >>= λ at. stored (finish proposal.id failed no_outcome at)) s in
      (err (join_with error r), s')

  -- The checks that `Confirm` makes between `Begin` and the executor.
  unfoldable pub recheck : Principal → Proposal → Result Error Snapshot → Result Error (Unit {0})
  unfolding moved_on
  recheck principal proposal (err error) = err error
  recheck principal proposal (ok snapshot) =
      let input = proposal.inputs in
      let quota = proposal.quota in
      if moved_on snapshot input.project_version
      then err state_changed
      else fail_if (over_quota snapshot.quota_used quota.cost snapshot.quota_limit) quota_exceeded

  -- `none` where the versions of the actor differ, and the snapshot is not read.
  unfoldable pub verdict : Principal → Proposal → W → Result Error (Unit {0}) × W
  unfolding recheck
  verdict principal proposal w =
      let (r, w') = env.snapshot principal proposal.inputs w in
      if not (principal.version == proposal.actor_version)
      then (err state_changed, w)
      else (recheck principal proposal r, w')

  -- What `Confirm` does on the outcome of the checks.
  unfoldable pub carried :
      Principal
      → Text
      → Proposal
      → Result Error (Unit {0}) × W
      → MemoryStore
      → Result Error Proposal × State W
  unfolding give_up settle
  carried principal key proposal (err error, w) store = give_up proposal error (store, w)
  carried principal key proposal (ok _, w) store =
      let (r, w') = env.add_repository principal proposal.inputs key w in
      settle proposal r (store, w')

  -- The rest of `Confirm` after `Begin` gave the proposal to this call.
  unfoldable pub carry_out : Principal → Text → Proposal → Action (State W) Error Proposal
  unfolding verdict carried
  carry_out principal key proposal (store, w) =
      carried principal key proposal (verdict principal proposal w) store

  unfoldable pub continue : Principal → Text → Proposal × Bool → Action (State W) Error Proposal
  unfolding carry_out
  continue principal key (proposal, true) s = (ok proposal, s)
  continue principal key (proposal, false) s = carry_out principal key proposal s

  unfoldable pub confirm : Principal → ℤ → Text → Text → Action (State W) Error Proposal
  unfolding continue
  confirm principal proposal_id token key = do
    _ ← pure (in_access (authorize principal project_write))
    _ ← pure (fail_if (nonpositive proposal_id || is_blank token || is_blank key) invalid)
    now ← clock
    begun ← stored (begin proposal_id principal (env.sha256 token) key now)
    continue principal key begun
