-- ===== src/Agent/Moves.antt =====
-- Each step of the system keeps every proposal safe.
use opensource_project_intel.Base.{
  ℕ, ◌+◌, ◌≤◌, ◌≡◌, refl, ap, sym, subst, ◌∙◌, Bool, true, Option, none, some, List, [], ◌∷◌, ◌++◌,
  if◌then◌else◌, ◌==◌, arith,
}
use opensource_project_intel.Base.Int.{ℤ, int_eq, int_beq_iff}
use opensource_project_intel.Base.Lists.{All, All-append, All-split, All-map}
use opensource_project_intel.Base.Result.{Result, ok, err}
use opensource_project_intel.Base.Text.{Text, text_eq}
use opensource_project_intel.Access.{Principal}
use opensource_project_intel.Agent.{
  Status, awaiting_confirmation, executed, failed, Status_eq, Error, Outcome, no_outcome, Proposal,
  Env,
}
use opensource_project_intel.Agent.Store.{MemoryRecord, MemoryStore, put}
use opensource_project_intel.Agent.System.{Call, begun, ran, System, ran_of, entered, judged}
use opensource_project_intel.Agent.Ends.{
  status_of, BeginEnd, refused, replayed, lapses, given, FinishEnd, rejected, closed,
}

-- How often the proposal stands among the executions, and among the calls that may still execute it.
abbrev pub count : ℤ → List ℤ → ℕ
count id [] = 0
count id (x ∷ xs) = (if x == id then 1 else 0) + count id xs

abbrev pub may_execute : ℤ → Call → ℕ
may_execute id (begun principal key proposal) = if proposal.id == id then 1 else 0
may_execute id (ran proposal status outcome) = 0

abbrev pub pending : ℤ → List Call → ℕ
pending id [] = 0
pending id (c ∷ cs) = may_execute id c + pending id cs

pub pending-append :
    (id : ℤ) (cs ds : List Call) → pending id (cs ++ ds) ≡ pending id cs + pending id ds
pending-append id [] ds = omega arith
pending-append id (c ∷ cs) ds = omega (arith, pending-append id cs ds)

-- No confirmation has been given the proposal.
abbrev pub untouched : Option Status → Bool
untouched none = true
untouched (some status) = status == awaiting_confirmation

-- A call that reports an execution made it.
abbrev pub IsHonest : List ℤ → Call → Type 0
IsHonest executions (begun principal key proposal) = Unit
IsHonest executions (ran proposal status outcome) =
    status ≡ executed → count proposal.id executions ≡ 1

abbrev pub IsStoredAt : ℤ → Option MemoryRecord → Type 0
IsStoredAt id none = Unit
IsStoredAt id (some r) = let proposal = r.proposal in proposal.id ≡ id

-- What holds of the proposal of one identifier.
pub record IsSafe {W : Type 0} (s : System W) (id : ℤ) : Type 0 where
  pub keyed : IsStoredAt id (s.store.values id)
  pub once : pending id s.calls + count id s.executions ≤ 1
  pub fresh :
      untouched (status_of (s.store.values id)) ≡ true
      → pending id s.calls + count id s.executions ≡ 0
  pub told : status_of (s.store.values id) ≡ some executed → count id s.executions ≡ 1

module _ {W : Type 0} (s : System W) (k : ℤ) (safe : IsSafe s k) where
  -- The store alone changes, and the proposal of `k` keeps its status.
  pub moved-IsSafe :
      (store : MemoryStore)
      → IsStoredAt k (store.values k)
      → status_of (store.values k) ≡ status_of (s.store.values k)
      → IsSafe (record s { store = store }) k
  moved-IsSafe store keyed same = record {
    keyed = keyed;
    once = safe.once;
    fresh = λ u. safe.fresh (subst (λ o. untouched o ≡ true) same u);
    told = λ e. safe.told (sym same ∙ e);
  }

  pub begins-IsSafe :
      (i : ℤ) (principal : Principal) (key : Text) (now : ℤ)
      {x : Result Error (Proposal × Bool) × MemoryStore}
      → IsSafe s i
      → BeginEnd i principal key now s.store x
      → IsSafe (entered principal key x s) k
  unfolding put
  begins-IsSafe i principal key now there (refused e) = safe
  begins-IsSafe i principal key now there (replayed v h o q c) = safe
  begins-IsSafe i principal key now there (lapses e v h) = record {
    keyed = ground (arith, int_beq_iff k i, there.keyed, safe.keyed);
    once = safe.once;
    fresh = λ u. ground (arith, int_beq_iff k i, safe.fresh);
    told = λ t. ground (arith, int_beq_iff k i, safe.told);
  }
  begins-IsSafe i principal key now there (given v h o w) = record {
    keyed = ground (arith, int_beq_iff k i, there.keyed, safe.keyed);
    once = ground (arith, int_beq_iff i k, there.keyed, safe.once, there.fresh);
    fresh = λ u. ground (arith, int_beq_iff k i, int_beq_iff i k, there.keyed, safe.fresh);
    told = λ t. ground (arith, int_beq_iff k i, safe.told);
  }

-- The invariant: every proposal is safe, and the calls are honest.
pub record IsSound {W : Type 0} (s : System W) : Type 0 where
  pub safe : (k : ℤ) → IsSafe s k
  pub honest : All (IsHonest s.executions) s.calls

abbrev pub cut : Call → List Call → List Call → List Call
cut c earlier later = earlier ++ c ∷ later

pub pending-cut :
    (k : ℤ) (c : Call) (earlier later : List Call)
    → pending k (cut c earlier later) ≡ pending k earlier + may_execute k c + pending k later
pending-cut k c earlier later = omega (arith, pending-append k earlier (c ∷ later))

module _ {W : Type 0} (env : Env W) (s : System W) (earlier later : List Call) where
  -- The proposal of a call that may execute it has not been executed.
  pub begun-unexecuted :
      (principal : Principal) (key : Text) (p : Proposal)
      → s.calls ≡ earlier ++ begun principal key p ∷ later
      → IsSafe s p.id
      → count p.id s.executions ≡ 0
  begun-unexecuted principal key p h safe = ground (
    arith,
    safe.once,
    ap (pending p.id) h,
    pending-cut p.id (begun principal key p) earlier later,
    int_beq_iff p.id p.id,
  )

  pub IsHonest-executed :
      (p : Proposal) (c : Call)
      → count p.id s.executions ≡ 0
      → IsHonest s.executions c
      → IsHonest (p.id ∷ s.executions) c
  IsHonest-executed p (begun principal key q) h o = tt
  IsHonest-executed p (ran q status outcome) h o =
      λ e. ground (arith, int_beq_iff p.id q.id, o e, ap (λ i. count i s.executions))

  pub judged-IsSafe :
      (principal : Principal) (key : Text) (p : Proposal) (k : ℤ) (x : Result Error (Unit {0}) × W)
      → s.calls ≡ earlier ++ begun principal key p ∷ later
      → IsSafe s k
      → IsSafe (judged env earlier later principal key p x s) k
  judged-IsSafe principal key p k (err e, w) h safe = record {
    keyed = safe.keyed;
    once = ground (
      arith,
      safe.once,
      ap (pending k) h,
      pending-cut k (begun principal key p) earlier later,
      pending-cut k (ran p failed no_outcome) earlier later,
    );
    fresh = λ u. ground (
      arith,
      safe.fresh u,
      ap (pending k) h,
      pending-cut k (begun principal key p) earlier later,
      pending-cut k (ran p failed no_outcome) earlier later,
    );
    told = safe.told;
  }
  judged-IsSafe principal key p k (ok t, w) h safe =
      let r = (env.add_repository principal p.inputs key w).0 in
      let c = ran_of p r in
      let weight : may_execute k c ≡ 0 = ran-may_execute r in
      record {
        keyed = safe.keyed;
        once = ground (
          arith,
          safe.once,
          weight,
          ap (pending k) h,
          pending-cut k (begun principal key p) earlier later,
          pending-cut k c earlier later,
        );
        fresh = λ u. ground (
          arith,
          safe.fresh u,
          weight,
          ap (pending k) h,
          pending-cut k (begun principal key p) earlier later,
          pending-cut k c earlier later,
        );
        told = λ e. ground (
          arith,
          safe.once,
          safe.told e,
          ap (pending k) h,
          pending-cut k (begun principal key p) earlier later,
        );
      }
    where
      ran-may_execute : (r : Result Error Outcome) → may_execute k (ran_of p r) ≡ 0
      ran-may_execute (ok o) = refl
      ran-may_execute (err e) = refl

  pub judged-IsHonest :
      (principal : Principal) (key : Text) (p : Proposal) (x : Result Error (Unit {0}) × W)
      → s.calls ≡ earlier ++ begun principal key p ∷ later
      → IsSafe s p.id
      → All (IsHonest s.executions) s.calls
      → All
          (IsHonest (judged env earlier later principal key p x s).executions)
          (judged env earlier later principal key p x s).calls
  judged-IsHonest principal key p (err e, w) h safe honest =
      let (first, this, last) =
        All-split (IsHonest s.executions) earlier (begun principal key p) later
          (subst (All (IsHonest s.executions)) h honest) in
      All-append (IsHonest s.executions) earlier (ran p failed no_outcome ∷ later) first
        ((λ f. absurd ground arith), last)
  judged-IsHonest principal key p (ok t, w) h safe honest =
      let none_yet = begun-unexecuted principal key p h safe in
      let (first, this, last) =
        All-split (IsHonest s.executions) earlier (begun principal key p) later
          (subst (All (IsHonest s.executions)) h honest) in
      let grown = IsHonest (p.id ∷ s.executions) in
      let keep = λ (c : Call) (o : IsHonest s.executions c). IsHonest-executed p c none_yet o in
      All-append grown earlier (ran_of p (env.add_repository principal p.inputs key w).0 ∷ later)
        (All-map (IsHonest s.executions) grown earlier keep first)
        (
          ran-honest none_yet (env.add_repository principal p.inputs key w).0,
          All-map (IsHonest s.executions) grown later keep last,
        )
    where
      ran-honest :
          count p.id s.executions ≡ 0
          → (r : Result Error Outcome) → IsHonest (p.id ∷ s.executions) (ran_of p r)
      ran-honest n (ok o) = λ f. ground (arith, int_beq_iff p.id p.id)
      ran-honest n (err e) = λ f. absurd ground arith

  pub completes-IsSafe :
      (p : Proposal) (status : Status) (outcome : Outcome) (at : ℤ) (k : ℤ) {store : MemoryStore}
      → s.calls ≡ earlier ++ ran p status outcome ∷ later
      → IsHonest s.executions (ran p status outcome)
      → IsSafe s p.id
      → IsSafe s k
      → FinishEnd p.id status outcome at s.store store
      → IsSafe (record s { store = store; calls = earlier ++ later }) k
  unfolding put
  completes-IsSafe p status outcome at k h honest there safe rejected = record {
    keyed = safe.keyed;
    once = ground (
      arith,
      safe.once,
      ap (pending k) h,
      pending-cut k (ran p status outcome) earlier later,
      pending-append k earlier later,
    );
    fresh = λ u. ground (
      arith,
      safe.fresh u,
      ap (pending k) h,
      pending-cut k (ran p status outcome) earlier later,
      pending-append k earlier later,
    );
    told = safe.told;
  }
  completes-IsSafe p status outcome at k h honest there safe (closed v r x c) = record {
    keyed = ground (arith, int_beq_iff k p.id, there.keyed, safe.keyed);
    once = ground (
      arith,
      safe.once,
      ap (pending k) h,
      pending-cut k (ran p status outcome) earlier later,
      pending-append k earlier later,
    );
    fresh = λ u. ground (
      arith,
      int_beq_iff k p.id,
      safe.fresh,
      ap (pending k) h,
      pending-cut k (ran p status outcome) earlier later,
      pending-append k earlier later,
    );
    told = λ e. ground (arith, int_beq_iff k p.id, safe.told, honest);
  }
