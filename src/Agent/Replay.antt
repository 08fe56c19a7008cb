-- ===== src/Agent/Replay.antt =====
-- A confirmation that was completed and is sent again (internal/analysis/agent/service.go).
use opensource_project_intel.Base.{◌≡◌, true, some}
use opensource_project_intel.Base.Int.{ℤ, int_eq}
use opensource_project_intel.Base.Result.{Result, ok, err}
use opensource_project_intel.Base.Stateful.{after}
use opensource_project_intel.Base.Text.{Text, text_eq}
use opensource_project_intel.Access.{Principal}
use opensource_project_intel.Agent.{Status_eq, Error, Proposal, Env}
use opensource_project_intel.Agent.Store.{MemoryRecord, MemoryStore, begin, completed}
use opensource_project_intel.Agent.Store
use opensource_project_intel.Agent.Service.{State, continue}
use opensource_project_intel.Agent.Ends.{status_in, IsOwned}

-- The store holds the proposal completed, under the key of its confirmation.
pub record IsKept (principal : Principal) (id : ℤ) (key : Text) (p : Proposal) (store : MemoryStore)
    : Type 0 where
  pub value : MemoryRecord
  pub found : store.values id ≡ some value
  pub same : value.proposal ≡ p
  pub owned : IsOwned principal value
  pub keyed : value.confirmation_key ≡ key
  pub over : completed (status_in value) ≡ true

-- The store is keyed by the identifiers of its proposals.
abbrev id_in : MemoryRecord → ℤ
id_in v = let proposal = v.proposal in proposal.id

abbrev pub IsKeyed : MemoryStore → Type 0
IsKeyed store = (id : ℤ) (v : MemoryRecord) → store.values id ≡ some v → id_in v ≡ id

module _ {W : Type 0} (env : Env W) (principal : Principal) (id : ℤ) (key : Text) where
  -- Where a call returns a proposal, the store keeps it.
  abbrev pub Keeps : Result Error Proposal × State W → Type 0
  Keeps (ok p, (store, w)) = IsKept principal id key p store
  Keeps (err e, s) = Unit

  -- `Confirm` from its two guards on.
  abbrev guarded :
      Text
      → Result Error (Unit {0})
      → Result Error (Unit {0})
      → State W
      → Result Error Proposal × State W
  guarded token a g s =
      after
        (λ (_ : Unit {0}) (s' : State W).
          after
            (λ (_ : Unit {0}) (s'' : State W).
              let (now, w) = env.clock s''.1 in
              let x = begin id principal (env.sha256 token) key now s''.0 in
              after (continue env principal key) (x.0, (x.1, w)))
            (g, s'))
        (a, s)
