-- ===== src/Agent/System.antt =====
-- Many confirmations at one store, interleaved. A call of `Confirm` takes the store three times: in
-- `Begin`, not at all while it reads the state and runs the executor, and in `Finish`; it may also
-- stop anywhere between. `executions` records the calls of the executor. A proposal is created under
-- an identifier that the store does not have, since identifiers come from the source of identifiers.
-- `Elsewhere` says how the world may change between the calls' own steps.
use opensource_project_intel.Base.{ℕ, ◌≡◌, Bool, true, false, none, List, [], ◌∷◌, ◌++◌}
use opensource_project_intel.Base.Int.{ℤ, int_eq}
use opensource_project_intel.Base.Result.{Result, ok, err}
use opensource_project_intel.Base.Text.{Text}
use opensource_project_intel.Access.{Principal}
use opensource_project_intel.Agent.{
  Status, awaiting_confirmation, executed, failed, Status_eq, Error, Outcome, no_outcome, Proposal,
  Env,
}
use opensource_project_intel.Agent.Store.{MemoryStore, create, begin, finish}
use opensource_project_intel.Agent.Service.{verdict}

-- A confirmation in flight: the store gave it the proposal, or it is about to complete it.
pub data Call : Type 0 where
  begun : Principal → Text → Proposal → Call
  ran : Proposal → Status → Outcome → Call

pub record System (W : Type 0) : Type 0 where
  pub store : MemoryStore
  pub world : W
  pub calls : List Call
  pub executions : List ℤ

abbrev pub ran_of : Proposal → Result Error Outcome → Call
ran_of proposal (ok outcome) = ran proposal executed outcome
ran_of proposal (err _) = ran proposal failed no_outcome

module _ {W : Type 0} where
  abbrev pub entered :
      Principal → Text → Result Error (Proposal × Bool) × MemoryStore → System W → System W
  entered principal key (ok (proposal, false), store) s = record s {
    store = store;
    calls = begun principal key proposal ∷ s.calls;
  }
  entered principal key (ok (proposal, true), store) s = record s { store = store }
  entered principal key (err e, store) s = record s { store = store }

  -- The checks and, where they pass, the executor.
  abbrev pub judged :
      Env W
      → List Call
      → List Call
      → Principal
      → Text
      → Proposal
      → Result Error (Unit {0}) × W
      → System W
      → System W
  judged env earlier later principal key proposal (err e, w) s = record s {
    world = w;
    calls = earlier ++ ran proposal failed no_outcome ∷ later;
  }
  judged env earlier later principal key proposal (ok _, w) s =
      let (r, w') = env.add_repository principal proposal.inputs key w in
      record s {
        world = w';
        calls = earlier ++ ran_of proposal r ∷ later;
        executions = proposal.id ∷ s.executions;
      }

  pub data Step (env : Env W) (Elsewhere : W → W → Type 0) (s : System W) : System W → Type 0 where
    proposes :
        (proposal : Proposal) (key : Text) (digest : List ℕ)
        → proposal.status ≡ awaiting_confirmation
        → s.store.values proposal.id ≡ none
        → Step env Elsewhere s (record s { store = (create proposal key digest s.store).1 })
    begins :
        (id : ℤ) (principal : Principal) (token : List ℕ) (key : Text) (now : ℤ)
        → Step env Elsewhere s (entered principal key (begin id principal token key now s.store) s)
    executes :
        (earlier later : List Call) (principal : Principal) (key : Text) (proposal : Proposal)
        → s.calls ≡ earlier ++ begun principal key proposal ∷ later
        → Step env Elsewhere s (
            judged env earlier later principal key proposal
              (verdict env principal proposal s.world)
              s)
    completes :
        (earlier later : List Call) (proposal : Proposal) (status : Status) (outcome : Outcome)
        (at : ℤ)
        → s.calls ≡ earlier ++ ran proposal status outcome ∷ later
        → Step env Elsewhere s (record s {
          store = (finish proposal.id status outcome at s.store).1;
          calls = earlier ++ later;
        })
    stops :
        (earlier later : List Call) (call : Call)
        → s.calls ≡ earlier ++ call ∷ later
        → Step env Elsewhere s (record s { calls = earlier ++ later })
    elsewhere : (w : W) → Elsewhere s.world w → Step env Elsewhere s (record s { world = w })

  -- Any number of steps.
  pub data Steps (env : Env W) (Elsewhere : W → W → Type 0) (s : System W) : System W → Type 0 where
    here : Steps env Elsewhere s s
    then_step :
        {t u : System W}
        → Steps env Elsewhere s t
        → Step env Elsewhere t u
        → Steps env Elsewhere s u

  -- A service that starts with an empty store.
  pub data Reachable (env : Env W) (Elsewhere : W → W → Type 0) : System W → Type 0 where
    from_start :
        (w : W) {s : System W}
        → Steps env Elsewhere
            (record {
              store = record { values = λ _. none; creates = λ _ _ _. none };
              world = w;
              calls = [];
              executions = [];
            })
            s
        → Reachable env Elsewhere s
