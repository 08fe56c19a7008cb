-- ===== src/Job/Completion.antt =====
-- The way of a job from `New` to its end (internal/job/job.go).
use opensource_project_intel.Base.{◌≡◌, Bool, false, Option, none, some, List, [], ◌∷◌, arith}
use opensource_project_intel.Base.Int.{ℤ, pos, ◌≤ℤ◌, ◌<ℤ◌, ◌+ℤ◌, inc64}
use opensource_project_intel.Base.Result.{ok}
use opensource_project_intel.Base.Text.{Text, text_eq, text_beq_iff, is_blank}
use opensource_project_intel.Job.{
  queued, running, succeeded, Checkpoint, Job, new, transition, claim, commit_page, terminal,
  lease_live,
}
use opensource_project_intel.Job.Invariant.{
  Op, transition_op, claim_op, commit_op, apply, kept, run, IsWithin,
}

-- A worker's calls: claim, one page, success.
abbrev pub work : Text → ℤ → ℤ → ℤ → Checkpoint → ℤ → ℤ → List Op
work holder claimed ttl completed checkpoint committed finished =
    claim_op holder claimed ttl
    ∷ commit_op holder completed checkpoint committed
    ∷ transition_op succeeded finished []
    ∷ []

module _ (holder : Text) (claimed ttl completed : ℤ) (checkpoint : Checkpoint)
    (committed finished : ℤ) where
  claimed_job :
      (j : Job)
      → j.state ≡ queued
      → j.lease_expires_at ≡ none
      → j.started_at ≡ none
      → is_blank holder ≡ false
      → pos 0 <ℤ ttl
      → claim j holder claimed ttl
        ≡ ok (record j {
          lease_holder = holder;
          lease_expires_at = some (claimed +ℤ ttl);
          state = running;
          started_at = some claimed;
          version = inc64 (inc64 j.version);
          updated_at = claimed;
        })
  unfolding claim transition terminal
  claimed_job j q l s b t = ground arith

  committed_job :
      (j : Job)
      → j.state ≡ running
      → j.lease_holder ≡ holder
      → j.lease_expires_at ≡ some (claimed +ℤ ttl)
      → committed <ℤ claimed +ℤ ttl
      → j.progress.completed ≤ℤ completed
      → IsWithin completed j.progress.total
      → j.checkpoint ≡ none
      → pos 0 <ℤ checkpoint.version
      → let progress = j.progress in
        commit_page j holder completed checkpoint committed
        ≡ ok (record j {
          progress = record progress { completed = completed };
          checkpoint = some checkpoint;
          version = inc64 j.version;
          updated_at = committed;
        })
  unfolding commit_page lease_live
  committed_job j r h l e c w k v = ground (arith, text_beq_iff j.lease_holder holder)

  -- A new job that a named worker claims for a positive time, that commits a page before the
  -- lease ends, with a positive checkpoint version and no more than the total, and that is then
  -- moved to succeeded, is succeeded, with that page and checkpoint, at version 5.
  pub new-run-succeeded :
      (id project_id : ℤ) (kind unit : Text) (total : Option ℤ) (cancellable : Bool) (now : ℤ)
      {j : Job}
      → new id project_id kind unit total cancellable now ≡ ok j
      → is_blank holder ≡ false
      → pos 0 <ℤ ttl
      → committed <ℤ claimed +ℤ ttl
      → pos 0 ≤ℤ completed
      → IsWithin completed total
      → pos 0 <ℤ checkpoint.version
      → let done = run j (work holder claimed ttl completed checkpoint committed finished) in
        (done.state ≡ succeeded)
        × (done.progress.completed ≡ completed)
        × (done.checkpoint ≡ some checkpoint)
        × (done.finished_at ≡ some finished)
        × (done.version ≡ pos 5)
        × (done.lease_expires_at ≡ none)
  unfolding run apply new transition terminal inc64
  new-run-succeeded id project_id kind unit total cancellable now {j} n b t e c w v =
      ground (arith, claimed_job j, committed_job (kept j (claim j holder claimed ttl)))
