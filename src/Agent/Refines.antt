-- ===== src/Agent/Refines.antt =====
-- `Confirm` of internal/analysis/agent/service.go as a run of the system's steps.
use opensource_project_intel.Base.{
  ◌≡◌, refl, subst, ap, ◌∙◌, some, Bool, true, false, ◌||◌, List, [], ◌∷◌, ◌⊎◌, inl, inr,
}
use opensource_project_intel.Base.Int.{ℤ, nonpositive}
use opensource_project_intel.Base.Result.{Result, ok, err, fail_if}
use opensource_project_intel.Base.Stateful.{after}
use opensource_project_intel.Base.Text.{Text, is_blank}
use opensource_project_intel.Access.{Principal, authorize, project_write}
use opensource_project_intel.Agent.{
  Error, invalid, awaiting_confirmation, executed, failed, Outcome, no_outcome, Proposal, Env,
}
use opensource_project_intel.Agent.Store.{MemoryRecord, MemoryStore, begin}
use opensource_project_intel.Agent.Ends.{
  status_of, BeginEnd, refused, replayed, lapses, given, begin-end,
}
use opensource_project_intel.Agent.Service.{
  State, verdict, give_up, settle, carried, carry_out, continue, confirm, in_access,
}
use opensource_project_intel.Agent.System.{
  Call, begun, ran, System, ran_of, entered, judged, Step, begins, executes, completes, elsewhere,
  Steps, here, then_step,
}

abbrev pub id_in : MemoryRecord → ℤ
id_in v = let proposal = v.proposal in proposal.id

module _ {W : Type 0} (env : Env W) where
  -- Of the world beside its own steps, the call only reads the clock.
  pub data Ticks (w : W) : W → Type 0 where
    ticks : Ticks w (env.clock w).1

  Steps-append :
      {s t u : System W} → Steps env Ticks s t → Steps env Ticks t u → Steps env Ticks s u
  Steps-append r here = r
  Steps-append r (then_step q st) = then_step (Steps-append r q) st

  abbrev pub system : State W → List Call → List ℤ → System W
  system (store, w) calls executions = record {
    store = store;
    world = w;
    calls = calls;
    executions = executions;
  }

  -- The end of a call that `Begin` gave the proposal.
  settle-Steps :
      (p : Proposal) (r : Result Error Outcome) (s : State W) (calls : List Call)
      (executions : List ℤ)
      → Steps env Ticks
          (system s (ran_of p r ∷ calls) executions)
          (system (settle env p r s).1 calls executions)
  unfolding settle
  settle-Steps p (ok outcome) (store, w) calls executions =
      let (now, w') = env.clock w in
      then_step (then_step here (completes [] calls p executed outcome now refl))
        (elsewhere w' ticks)
  settle-Steps p (err e) (store, w) calls executions =
      let (now, w') = env.clock w in
      then_step (then_step here (completes [] calls p failed no_outcome now refl))
        (elsewhere w' ticks)

  give_up-Steps :
      (p : Proposal) (e : Error) (s : State W) (calls : List Call) (executions : List ℤ)
      → Steps env Ticks
          (system s (ran p failed no_outcome ∷ calls) executions)
          (system (give_up env p e s).1 calls executions)
  unfolding give_up
  give_up-Steps p e (store, w) calls executions =
      let (now, w') = env.clock w in
      then_step (then_step here (completes [] calls p failed no_outcome now refl))
        (elsewhere w' ticks)

  -- A run that ends in the state a call returns, with these calls in flight, and that executed at most
  -- the one proposal.
  abbrev Runs : ℤ → System W → State W → List Call → Type 0
  Runs id start s calls =
      (executions : List ℤ) × ((executions ≡ start.executions)
        ⊎ (executions ≡ id ∷ start.executions))
      × Steps env Ticks start (system s calls executions)

  carried-Runs :
      (principal : Principal) (key : Text) (p : Proposal) (x : Result Error (Unit {0}) × W)
      (store : MemoryStore) (w : W) (calls : List Call) (executions : List ℤ)
      → verdict env principal p w ≡ x
      → Runs p.id
          (system (store, w) (begun principal key p ∷ calls) executions)
          (carried env principal key p x store).1
          calls
  unfolding carried
  carried-Runs principal key p (err e, w') store w calls executions h = (
    executions,
    inl refl,
    Steps-append
        (then_step here (
          subst
            (λ x. Step env Ticks (system (store, w) (begun principal key p ∷ calls) executions) (
              judged env [] calls principal key p x
                (system (store, w) (begun principal key p ∷ calls) executions)))
            h (executes [] calls principal key p refl)))
        (give_up-Steps p e (store, w') calls executions),
  )
  carried-Runs principal key p (ok t, w') store w calls executions h =
      let (r, w'') = env.add_repository principal p.inputs key w' in
      (
        p.id ∷ executions,
        inr refl,
        Steps-append
            (then_step here (
              subst
                (λ x.
                  Step env Ticks (system (store, w) (begun principal key p ∷ calls) executions) (
                    judged env [] calls principal key p x
                      (system (store, w) (begun principal key p ∷ calls) executions)))
                h (executes [] calls principal key p refl)))
            (settle-Steps p r (store, w'') calls (p.id ∷ executions)),
      )

  -- The proposal that `Begin` gave to the call is the stored one of the identifier, and awaited
  -- confirmation.
  abbrev IsAwaiting : ℤ → MemoryStore → ℤ → Type 0
  IsAwaiting id store k =
      (v : MemoryRecord) × (store.values id ≡ some v)
      × (status_of (some v) ≡ some awaiting_confirmation)
      × (k ≡ id_in v)

  begin-IsAwaiting :
      {id : ℤ} {principal : Principal} {key : Text} {now : ℤ} {store : MemoryStore}
      {x : Result Error (Proposal × Bool) × MemoryStore}
      → BeginEnd id principal key now store x
      → (p : Proposal) → x.0 ≡ ok (p, false)
      → IsAwaiting id store p.id
  begin-IsAwaiting (refused e) p h = cc
  begin-IsAwaiting (replayed v q o k c) p h = cc
  begin-IsAwaiting (lapses e v q) p h = cc
  begin-IsAwaiting (given v q o a) p h = (v, q, a, cc)

  -- A run from the start to the state that a call of `Confirm` returns, with the calls in flight as they
  -- were: nothing is executed, or the one proposal of the identifier, which awaited confirmation.
  abbrev pub Refined : ℤ → System W → State W → Type 0
  Refined id start s =
      (executions : List ℤ) × ((executions ≡ start.executions)
        ⊎ (v : MemoryRecord) × (start.store.values id ≡ some v)
          × (status_of (some v) ≡ some awaiting_confirmation)
          × (executions ≡ id_in v ∷ start.executions))
      × Steps env Ticks start (system s start.calls executions)

  -- From the outcome of `Begin` on.
  continue-Refined :
      (principal : Principal) (key : Text) (id : ℤ)
      (x : Result Error (Proposal × Bool) × MemoryStore) (start : System W) (w : W)
      → ((p : Proposal) → x.0 ≡ ok (p, false) → IsAwaiting id start.store p.id)
      → Steps env Ticks start
          (entered principal key x (system (start.store, w) start.calls start.executions))
      → Refined id start (after (continue env principal key) (x.0, (x.1, w))).1
  unfolding continue carry_out
  continue-Refined principal key id (err e, store) start w a r = (start.executions, inl refl, r)
  continue-Refined principal key id (ok (p, true), store) start w a r =
      (start.executions, inl refl, r)
  continue-Refined principal key id (ok (p, false), store) start w a r =
      let (executions, grown, rest) =
        carried-Runs principal key p (verdict env principal p w) store w start.calls
          start.executions refl in
      (executions, once (a p refl) grown, Steps-append r rest)
    where
      once :
          {executions : List ℤ}
          → IsAwaiting id start.store p.id
          → (executions ≡ start.executions) ⊎ (executions ≡ p.id ∷ start.executions)
          → (executions ≡ start.executions)
            ⊎ (v : MemoryRecord) × (start.store.values id ≡ some v)
              × (status_of (some v) ≡ some awaiting_confirmation)
              × (executions ≡ id_in v ∷ start.executions)
      once h (inl e) = inl e
      once (v, q, w, i) (inr e) = inr (v, q, w, e ∙ ap (λ k. k ∷ start.executions) i)

  guarded-Refined :
      (principal : Principal) (id : ℤ) (token key : Text) (start : System W)
      (a g : Result Error (Unit {0}))
      → Refined id start
          (after
            (λ (_ : Unit {0}) (s : State W).
              after
                (λ (_ : Unit {0}) (s' : State W).
                  let (now, w) = env.clock s'.1 in
                  let x = begin id principal (env.sha256 token) key now s'.0 in
                  after (continue env principal key) (x.0, (x.1, w)))
                (g, s))
            (a, (start.store, start.world))).1
  guarded-Refined principal id token key start (err e) g = (start.executions, inl refl, here)
  guarded-Refined principal id token key start (ok t) (err e) = (start.executions, inl refl, here)
  guarded-Refined principal id token key start (ok t) (ok u) =
      let (now, w) = env.clock start.world in
      let digest = env.sha256 token in
      continue-Refined principal key id (begin id principal digest key now start.store) start w
        (begin-IsAwaiting (begin-end id principal digest key now start.store))
        (then_step (then_step here (elsewhere w ticks)) (begins id principal digest key now))

  -- A call of `Confirm` is a run of the system's steps in which the world changes only by the clock's
  -- reading, the reading of the state and the logged calls of the executor: from any state, with any
  -- calls in flight, the steps lead to the store and the world that it leaves, with those calls still
  -- in flight. Either the log of the executor is as it was, or it has one entry more, of the stored
  -- proposal of the identifier, which awaited confirmation.
  pub confirm_refines :
      (principal : Principal) (id : ℤ) (token key : Text) (start : System W)
      → Refined id start (confirm env principal id token key (start.store, start.world)).1
  unfolding confirm
  confirm_refines principal id token key start =
      guarded-Refined principal id token key start (in_access (authorize principal project_write))
        (fail_if (nonpositive id || is_blank token || is_blank key) invalid)
