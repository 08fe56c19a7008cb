-- ===== src/Agent/Ends.antt =====
-- What a call of the store may do to it (internal/analysis/agent/memory_store.go).
use opensource_project_intel.Base.{
  ℕ, ◌≡◌, refl, Bool, true, false, ◌&&◌, ◌||◌, not, Option, none, some, List, [], if◌then◌else◌,
  ◌==◌, arith, if-split,
}
use opensource_project_intel.Base.Int.{ℤ, int_eq, int_beq_iff, ltb_ℤ}
use opensource_project_intel.Base.Result.{Result, ok, err}
use opensource_project_intel.Base.Text.{Text, text_eq, text_beq_iff}
use opensource_project_intel.Access.{Principal}
use opensource_project_intel.Agent.{
  Status, awaiting_confirmation, executing, Status_eq, Error, Outcome, Proposal,
}
use opensource_project_intel.Agent.Store.{
  MemoryRecord, MemoryStore, create, create_found, begin, begin_found, finish, finish_found, put,
  put_create, or_zero, lapsed, finished, completed,
}
use opensource_project_intel.Agent.Store

abbrev pub status_in : MemoryRecord → Status
status_in r = let proposal = r.proposal in proposal.status

abbrev pub status_of : Option MemoryRecord → Option Status
status_of none = none
status_of (some r) = let proposal = r.proposal in some proposal.status

-- The principal proposed it.
abbrev pub IsOwned : Principal → MemoryRecord → Type 0
IsOwned principal v =
    let proposal = v.proposal in
    (proposal.workspace_id ≡ principal.workspace) × (proposal.actor_id ≡ principal.actor_id)

-- What `Begin` may do: refuse, replay, let the proposal lapse, or give it to the call.
pub data BeginEnd (id : ℤ) (principal : Principal) (key : Text) (now : ℤ) (store : MemoryStore)
    : Result Error (Proposal × Bool) × MemoryStore → Type 0 where
  refused : (e : Error) → BeginEnd id principal key now store (err e, store)
  replayed :
      (v : MemoryRecord)
      → store.values id ≡ some v
      → IsOwned principal v
      → v.confirmation_key ≡ key
      → completed (status_in v) ≡ true
      → BeginEnd id principal key now store (ok (v.proposal, true), store)
  lapses :
      (e : Error) (v : MemoryRecord)
      → store.values id ≡ some v
      → BeginEnd id principal key now store (err e, put id (lapsed v) store)
  given :
      (v : MemoryRecord)
      → store.values id ≡ some v
      → IsOwned principal v
      → status_of (some v) ≡ some awaiting_confirmation
      → BeginEnd id principal key now store
          (ok ((Store.begun v key now).proposal, false), put id (Store.begun v key now) store)

begin_found-end :
    (id : ℤ) (principal : Principal) (token : List ℕ) (key : Text) (now : ℤ) (store : MemoryStore)
    (o : Option MemoryRecord)
    → store.values id ≡ o
    → BeginEnd id principal key now store (begin_found id principal token key now store o)
unfolding begin_found
begin_found-end id principal token key now store none h = refused _
begin_found-end id principal token key now store (some v) h =
    let proposal = v.proposal in
    if-split (BeginEnd id principal key now store)
      (not (proposal.workspace_id == principal.workspace)
        || not (proposal.actor_id == principal.actor_id))
      (λ _. refused _)
      λ o.
        let owned : IsOwned principal v = ground (
          arith,
          int_beq_iff proposal.workspace_id principal.workspace,
          int_beq_iff proposal.actor_id principal.actor_id,
        ) in
        if-split (BeginEnd id principal key now store)
          (v.confirmation_key == key && completed proposal.status)
          (λ c.
            replayed v h owned (ground (arith, text_beq_iff v.confirmation_key key)) (ground arith))
          λ _.
            if-split (BeginEnd id principal key now store)
              (not (v.confirmation_key == []) || not (proposal.status == awaiting_confirmation))
              (λ _. refused _)
              λ b.
                if-split (BeginEnd id principal key now store) (not (ltb_ℤ now proposal.expires_at))
                  (λ _. lapses _ v h)
                  λ _.
                    if-split (BeginEnd id principal key now store)
                      (not (proposal.token_digest == token)) (λ _. refused _)
                      λ _. given v h owned (ground arith)

pub begin-end :
    (id : ℤ) (principal : Principal) (token : List ℕ) (key : Text) (now : ℤ) (store : MemoryStore)
    → BeginEnd id principal key now store (begin id principal token key now store)
unfolding begin
begin-end id principal token key now store =
    begin_found-end id principal token key now store (store.values id) refl

-- What `Finish` may do.
pub data FinishEnd (id : ℤ) (status : Status) (outcome : Outcome) (at : ℤ) (store : MemoryStore)
    : MemoryStore → Type 0 where
  rejected : FinishEnd id status outcome at store store
  closed :
      (v : MemoryRecord)
      → store.values id ≡ some v
      → status_of (some v) ≡ some executing
      → completed status ≡ true
      → FinishEnd id status outcome at store (put id (finished v status outcome at) store)

finish_found-end :
    (id : ℤ) (status : Status) (outcome : Outcome) (at : ℤ) (store : MemoryStore)
    (o : Option MemoryRecord)
    → store.values id ≡ o
    → FinishEnd id status outcome at store (finish_found id status outcome at store o).1
unfolding finish_found
finish_found-end id status outcome at store none h = rejected
finish_found-end id status outcome at store (some v) h =
    let proposal = v.proposal in
    if-split (λ (x : Result Error Proposal × MemoryStore). FinishEnd id status outcome at store x.1)
      (not (proposal.status == executing) || not (completed status)) (λ _. rejected)
      λ b. closed v h (ground arith) (ground arith)

pub finish-end :
    (id : ℤ) (status : Status) (outcome : Outcome) (at : ℤ) (store : MemoryStore)
    → FinishEnd id status outcome at store (finish id status outcome at store).1
unfolding finish
finish-end id status outcome at store =
    finish_found-end id status outcome at store (store.values id) refl

-- What `Create` may do with a proposal of a new identifier.
pub data CreateEnd (p : Proposal) (store : MemoryStore) : MemoryStore → Type 0 where
  known : CreateEnd p store store
  added :
      (v : MemoryRecord) (store' : MemoryStore)
      → v.proposal ≡ p
      → ((k : ℤ) → store'.values k ≡ (if k == p.id then some v else store.values k))
      → CreateEnd p store store'

create_found-end :
    (p : Proposal) (key : Text) (digest : List ℕ) (store : MemoryStore) (o : Option ℤ)
    → CreateEnd p store (create_found p key digest store o).1
unfolding create_found put put_create
create_found-end p key digest store none = added _ _ refl (λ k. refl)
create_found-end p key digest store (some id) =
    if-split (λ (x : Result Error (Proposal × Bool) × MemoryStore). CreateEnd p store x.1) _
      (λ _. known) (λ _. known)

pub create-end :
    (p : Proposal) (key : Text) (digest : List ℕ) (store : MemoryStore)
    → CreateEnd p store (create p key digest store).1
unfolding create
create-end p key digest store =
    create_found-end p key digest store (store.creates p.workspace_id p.actor_id key)
