-- ===== src/Agent/Once.antt =====
-- However confirmations interleave, a proposal is executed at most once.
use opensource_project_intel.Base.{◌≤◌, ◌≡◌, refl, ap, subst, Bool, none, some, ◌++◌, arith}
use opensource_project_intel.Base.Int.{ℤ, int_eq, int_beq_iff}
use opensource_project_intel.Base.Lists.{All, All-append, All-split}
use opensource_project_intel.Base.Result.{Result}
use opensource_project_intel.Base.Text.{text_eq}
use opensource_project_intel.Agent.{
  awaiting_confirmation, executed, Status_eq, Error, Proposal, Env,
}
use opensource_project_intel.Agent.Store.{MemoryStore}
use opensource_project_intel.Agent.Service.{verdict}
use opensource_project_intel.Agent.System.{
  ran, System, entered, Step, proposes, begins, executes, completes, stops, elsewhere, Steps, here,
  then_step, Reachable, from_start,
}
use opensource_project_intel.Agent.Ends.{
  status_of, BeginEnd, refused, replayed, lapses, given, begin-end, finish-end, CreateEnd, known,
  added, create-end,
}
use opensource_project_intel.Agent.Moves.{
  count, pending, pending-append, IsHonest, IsSafe, begins-IsSafe, IsSound, pending-cut,
  judged-IsSafe, judged-IsHonest, completes-IsSafe,
}

module _ {W : Type 0} where
  proposes-IsSafe :
      (s : System W) (p : Proposal) (k : ℤ) {store : MemoryStore}
      → p.status ≡ awaiting_confirmation
      → s.store.values p.id ≡ none
      → IsSafe s p.id
      → IsSafe s k
      → CreateEnd p s.store store
      → IsSafe (record s { store = store }) k
  proposes-IsSafe s p k w n there safe known = safe
  proposes-IsSafe s p k w n there safe (added v store q f) = record {
    keyed = ground (arith, int_beq_iff k p.id, safe.keyed, f k, q, ap (λ (x : Proposal). x.id) q);
    once = safe.once;
    fresh = λ u. ground (arith, int_beq_iff k p.id, safe.fresh, there.fresh, f k);
    told =
        λ e. ground (arith, int_beq_iff k p.id, safe.told, f k, ap (λ (x : Proposal). x.status) q);
  }

module _ {W : Type 0} (env : Env W) {Elsewhere : W → W → Type 0} where
  -- Every step keeps the invariant.
  Step-IsSound : {s t : System W} → Step env Elsewhere s t → IsSound s → IsSound t
  Step-IsSound {s} (proposes p key digest w n) sound = record {
    safe = λ k.
        proposes-IsSafe s p k w n (sound.safe p.id) (sound.safe k)
          (create-end p key digest s.store);
    honest = sound.honest;
  }
  Step-IsSound {s} (begins i principal token key now) sound = record {
    safe = λ k.
        begins-IsSafe s k (sound.safe k) i principal key now (sound.safe i)
          (begin-end i principal token key now s.store);
    honest = begins-honest (begin-end i principal token key now s.store);
  }
    where
      begins-honest :
          {x : Result Error (Proposal × Bool) × MemoryStore}
          → BeginEnd i principal key now s.store x
          → All (IsHonest (entered principal key x s).executions) (entered principal key x s).calls
      begins-honest (refused e) = sound.honest
      begins-honest (replayed v h o q c) = sound.honest
      begins-honest (lapses e v h) = sound.honest
      begins-honest (given v h o w) = (tt, sound.honest)
  Step-IsSound {s} (executes earlier later principal key p h) sound =
      let x = verdict env principal p s.world in
      record {
        safe = λ k. judged-IsSafe env s earlier later principal key p k x h (sound.safe k);
        honest =
            judged-IsHonest env s earlier later principal key p x h (sound.safe p.id) sound.honest;
      }
  Step-IsSound {s} (completes earlier later p status outcome at h) sound =
      let (first, this, last) =
        All-split (IsHonest s.executions) earlier (ran p status outcome) later
          (subst (All (IsHonest s.executions)) h sound.honest) in
      record {
        safe = λ k.
            completes-IsSafe env s earlier later p status outcome at k h this (sound.safe p.id)
              (sound.safe k) (finish-end p.id status outcome at s.store);
        honest = All-append (IsHonest s.executions) earlier later first last;
      }
  Step-IsSound {s} (stops earlier later c h) sound =
      let (first, this, last) =
        All-split (IsHonest s.executions) earlier c later
          (subst (All (IsHonest s.executions)) h sound.honest) in
      record {
        safe = λ k. stops-IsSafe k (sound.safe k);
        honest = All-append (IsHonest s.executions) earlier later first last;
      }
    where
      stops-IsSafe : (k : ℤ) → IsSafe s k → IsSafe (record s { calls = earlier ++ later }) k
      stops-IsSafe k safe = record {
        keyed = safe.keyed;
        once = ground (
          arith,
          safe.once,
          ap (pending k) h,
          pending-cut k c earlier later,
          pending-append k earlier later,
        );
        fresh = λ u. ground (
          arith,
          safe.fresh u,
          ap (pending k) h,
          pending-cut k c earlier later,
          pending-append k earlier later,
        );
        told = safe.told;
      }
  Step-IsSound (elsewhere w e) sound = record {
    safe = λ k.
        let safe = sound.safe k in
        record { keyed = safe.keyed; once = safe.once; fresh = safe.fresh; told = safe.told };
    honest = sound.honest;
  }

  Steps-IsSound : {s t : System W} → Steps env Elsewhere s t → IsSound s → IsSound t
  Steps-IsSound here sound = sound
  Steps-IsSound (then_step r st) sound = Step-IsSound st (Steps-IsSound r sound)

  -- In every state that a service with an empty store can reach, however its calls interleave, wherever
  -- they stop and whatever else happens to the world, if proposals are created under identifiers that
  -- the store does not have, the executor was called at most once for each proposal, not at all for
  -- one that awaits confirmation, and exactly once for one that the store reports as executed.
  pub executed_once :
      {s : System W} (id : ℤ)
      → Reachable env Elsewhere s
      → (count id s.executions ≤ 1)
        × (status_of (s.store.values id) ≡ some awaiting_confirmation → count id s.executions ≡ 0)
        × (status_of (s.store.values id) ≡ some executed → count id s.executions ≡ 1)
  executed_once {s} id (from_start w r) =
      let sound = Steps-IsSound r (record {
        safe = λ k. record { keyed = tt; once = omega arith; fresh = λ u. refl; told = λ e. cc };
        honest = tt;
      }) in
      let safe = sound.safe id in
      (omega (arith, safe.once), λ e. ground (arith, safe.fresh), safe.told)
