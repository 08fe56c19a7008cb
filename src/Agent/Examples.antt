-- ===== src/Agent/Examples.antt =====
-- The theorems about the assistant at concrete inputs.
use opensource_project_intel.Base.{ℕ, suc, ◌≤◌, ◌≡◌, refl, none, some, [], ◌∷◌}
use opensource_project_intel.Base.Int.{pos, ◌+ℤ◌, ◌-ℤ◌, wrap64}
use opensource_project_intel.Base.Result.{ok}
use opensource_project_intel.Base.Text.{codes, is_blank, trim_space, byte_length}
use opensource_project_intel.Access.{
  Principal, analyst, active, member, authorize, Role-discrete, Status-discrete, ActorKind-discrete,
  Action-discrete,
}
use opensource_project_intel.Agent
use opensource_project_intel.Agent.{
  Error, repository_add, awaiting_confirmation, executing, executed, RepositoryAdd, Draft, Quota,
  Outcome, no_outcome, Proposal, Snapshot, Env,
}
use opensource_project_intel.Agent.Store.{
  MemoryRecord, MemoryStore, create, create_found, put, put_create, begin, begin_found, finish,
  new_memory_store,
}
use opensource_project_intel.Agent.Service.{
  State, proposal_of, propose, verdict, recheck, moved_on, confirm,
}
use opensource_project_intel.Agent.System.{
  System, entered, judged, proposes, begins, executes, completes, here, then_step, Reachable,
  from_start,
}
use opensource_project_intel.Agent.Moves.{count}
use opensource_project_intel.Agent.Ends.{status_of}
use opensource_project_intel.Agent.Once.{executed_once}
use opensource_project_intel.Agent.Refines.{Ticks, Refined, confirm_refines}

-- The world counts the calls of the clock and of the executor.
abbrev addition : RepositoryAdd
addition = record {
  project_id = pos 3;
  project_version = pos 4;
  url = codes "https://h/x";
  role = codes "core";
}

abbrev env : Env ℕ
env = record {
  plan = λ principal message w. (
    ok (record {
      action = repository_add;
      repository = addition;
      effect = codes "adds x";
      quota_name = codes "project_repositories";
      quota_cost = pos 1;
      quota_limit = pos 10;
      quota_used = pos 2;
      action_count = pos 1;
      unrecognized = [];
    }),
    w,
  );
  snapshot = λ principal input w. (
    ok (record {
      project_version = pos 4;
      lifecycle = codes "active";
      quota_used = pos 2;
      quota_limit = pos 10;
    }),
    w,
  );
  add_repository = λ principal input key w.
      (ok (record { repository_id = pos 70; audit_event_id = pos 71 }), suc w);
  next_id = λ w. (ok (pos 9), w);
  token = λ w. (ok (codes "t"), w);
  clock = λ w. (pos 100, suc w);
  sha256 = λ text. text;
  resource_of = λ id. codes "project:3";
}

abbrev ann : Principal
ann = record {
  actor_id = pos 5;
  kind = member;
  role = analyst;
  status = active;
  scopes = [];
  version = pos 1;
  workspace = pos 1;
}

abbrev proposed : Proposal
proposed = record {
  id = pos 9;
  workspace_id = pos 1;
  actor_id = pos 5;
  actor_version = pos 1;
  status = awaiting_confirmation;
  action = repository_add;
  inputs = addition;
  resources = codes "project:3" ∷ codes "https://h/x" ∷ [];
  effect = codes "adds x";
  quota = record { name = codes "project_repositories"; cost = pos 1; remaining = pos 7 };
  expires_at = pos 600_000_000_100;
  confirmation_token = [];
  token_digest = codes "t";
  created_at = pos 100;
  consumed_at = none;
  result = no_outcome;
}

ann-proposes :
    (propose env ann (codes " add x ") (codes "k") (new_memory_store, 0)).0
    ≡ ok (record proposed { confirmation_token = codes "t" })
unfolding propose create create_found put put_create new_memory_store authorize Agent.validate_draft
    Agent.ActionName-discrete proposal_of moved_on is_blank trim_space byte_length wrap64 ◌+ℤ◌ ◌-ℤ◌
    Role-discrete Status-discrete ActorKind-discrete Action-discrete
ann-proposes = refl

abbrev kept : MemoryRecord
kept = record {
  proposal = proposed;
  create_key = codes "k";
  create_digest = codes "add x";
  confirmation_key = [];
}

-- The store after the proposal.
abbrev awaiting : MemoryStore
awaiting = put (pos 9) kept (put_create (pos 1) (pos 5) (codes "k") (pos 9) new_memory_store)

abbrev done : Proposal
done = record proposed {
  status = executed;
  consumed_at = some (pos 100);
  result = record { repository_id = pos 70; audit_event_id = pos 71 };
}

abbrev after_confirm : State ℕ
after_confirm = (confirm env ann (pos 9) (codes "t") (codes "c") (awaiting, 0)).1

abbrev start : System ℕ
start = record { store = new_memory_store; world = 0; calls = []; executions = [] }

-- With the proposal in the store, this confirmation executes it.
abbrev ready : System ℕ
ready = record start { store = awaiting }

confirm_refines_example :
    Refined env (pos 9) ready (confirm env ann (pos 9) (codes "t") (codes "c") (awaiting, 0)).1
confirm_refines_example = confirm_refines env ann (pos 9) (codes "t") (codes "c") ready

-- The proposal is created and given to a confirmation, which executes it and completes it.
abbrev given_to_ann : System ℕ
given_to_ann =
    entered ann (codes "c") (begin (pos 9) ann (codes "t") (codes "c") (pos 100) awaiting)
      (record start { store = awaiting })

abbrev handed : Proposal
handed = record proposed { status = executing; consumed_at = some (pos 100) }

abbrev carried_out : System ℕ
carried_out = judged env [] [] ann (codes "c") handed (verdict env ann handed 0) given_to_ann

abbrev outcome : Outcome
outcome = record { repository_id = pos 70; audit_event_id = pos 71 }

abbrev completed_state : System ℕ
completed_state = record carried_out {
  store = (finish (pos 9) executed outcome (pos 101) carried_out.store).1;
  calls = [];
}

completed-Reachable : Reachable env (Ticks env) completed_state
unfolding create create_found begin begin_found put put_create new_memory_store verdict recheck
    moved_on Agent.over_quota wrap64 ◌+ℤ◌ Agent.Status-discrete
completed-Reachable = from_start 0 (
    then_step
      (then_step
        (then_step (then_step here (proposes proposed (codes "k") (codes "add x") refl refl))
          (begins (pos 9) ann (codes "t") (codes "c") (pos 100)))
        (executes [] [] ann (codes "c") handed refl))
      (completes [] [] handed executed outcome (pos 101) refl))

executed_once_example :
    (count (pos 9) completed_state.executions ≤ 1)
    × (status_of (completed_state.store.values (pos 9)) ≡ some awaiting_confirmation
        → count (pos 9) completed_state.executions ≡ 0)
    × (status_of (completed_state.store.values (pos 9)) ≡ some executed
        → count (pos 9) completed_state.executions ≡ 1)
executed_once_example = executed_once env (pos 9) completed-Reachable
