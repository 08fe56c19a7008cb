-- ===== src/Job/Examples.antt =====
-- Tests of a job on concrete calls, and the theorems about jobs at concrete inputs.
use opensource_project_intel.Base.{◌≡◌, refl, true, false, none, some, [], ◌∷◌, arith}
use opensource_project_intel.Base.Int.{pos, ◌+ℤ◌, inc64}
use opensource_project_intel.Base.Result.{ok, err, is_ok}
use opensource_project_intel.Base.Text.{Text, codes, is_blank, text_ne}
use opensource_project_intel.Job.{
  State-discrete, queued, running, succeeded, cancelled, Checkpoint, Job, new, invalid, claim,
  commit_page, terminal, lease_unavailable,
}
use opensource_project_intel.Job.Invariant.{
  claim_op, commit_op, coalesce_op, cancel_op, run, IsValid,
}
use opensource_project_intel.Job.Runs.{new-run-IsValid, run-terminal, run-Progressed, Progressed}
use opensource_project_intel.Job.Lease.{claim_excludes}
use opensource_project_intel.Job.Completion.{work, new-run-succeeded}

abbrev ada : Text
ada = codes "ada"

abbrev bob : Text
bob = codes "bob"

abbrev page : Checkpoint
page = record { scope = codes "issues"; cursor = codes "c2"; coverage_to = pos 90; version = pos 1 }

abbrev first : Job
first = record {
  id = pos 7;
  project_id = pos 3;
  kind = codes "sync";
  state = queued;
  progress = record {
    completed = pos 0;
    total = some (pos 9);
    total_status = [];
    unit = codes "page";
  };
  checkpoint = none;
  requested_from = none;
  requested_to = none;
  version = pos 1;
  coalesced_requests = pos 0;
  cancellable = true;
  lease_holder = [];
  lease_expires_at = none;
  created_at = pos 100;
  started_at = none;
  updated_at = pos 100;
  finished_at = none;
  failure = [];
}

abbrev claimed : Job
claimed = record first {
  state = running;
  lease_holder = ada;
  lease_expires_at = some (pos 160);
  started_at = some (pos 110);
  updated_at = pos 110;
  version = pos 3;
}

abbrev cancelled_job : Job
cancelled_job = record first { state = cancelled; finished_at = some (pos 120); version = pos 2 }

new-first :
    new (pos 7) (pos 3) (codes "sync") (codes "page") (some (pos 9)) true (pos 100) ≡ ok first
unfolding new is_blank
new-first = refl

new_blank : new (pos 7) (pos 3) (codes " ") (codes "page") none true (pos 100) ≡ err invalid
unfolding new is_blank
new_blank = refl

claim-first : claim first ada (pos 110) (pos 50) ≡ ok claimed
unfolding claim is_blank State-discrete inc64 ◌+ℤ◌
claim-first = refl

claim_taken : claim claimed bob (pos 120) (pos 50) ≡ err lease_unavailable
unfolding claim is_blank
claim_taken = refl

new-run-IsValid_example :
    IsValid (run first (claim_op ada (pos 110) (pos 50) ∷ coalesce_op ∷ cancel_op (pos 130) ∷ []))
new-run-IsValid_example =
    new-run-IsValid (pos 7) (pos 3) (codes "sync") (codes "page") (some (pos 9)) true (pos 100)
      (claim_op ada (pos 110) (pos 50) ∷ coalesce_op ∷ cancel_op (pos 130) ∷ []) new-first

run-terminal_example :
    run cancelled_job (claim_op bob (pos 130) (pos 9) ∷ coalesce_op ∷ []) ≡ cancelled_job
unfolding terminal
run-terminal_example =
    run-terminal cancelled_job (claim_op bob (pos 130) (pos 9) ∷ coalesce_op ∷ []) refl

run-Progressed_example :
    Progressed claimed (run claimed (commit_op ada (pos 4) page (pos 120) ∷ []))
run-Progressed_example = run-Progressed claimed (commit_op ada (pos 4) page (pos 120) ∷ [])

claim_excludes_example :
    (is_ok (
        claim
          (run claimed (claim_op bob (pos 120) (pos 9) ∷ coalesce_op ∷ []))
          bob
          (pos 150)
          (pos 9))
      ≡ false)
    × (is_ok (
          commit_page
            (run claimed (claim_op bob (pos 120) (pos 9) ∷ coalesce_op ∷ []))
            bob
            (pos 4)
            page
            (pos 150))
        ≡ false)
unfolding ◌+ℤ◌
claim_excludes_example =
    claim_excludes first ada (pos 110) (pos 50) (claim_op bob (pos 120) (pos 9) ∷ coalesce_op ∷ [])
      bob (pos 150) (pos 9) (pos 4) page (pos 150) claim-first
      ((text_ne bob ada refl, omega arith), (tt, tt)) (text_ne bob ada refl) (omega arith)

new-run-succeeded_example :
    let done = run first (work ada (pos 110) (pos 50) (pos 4) page (pos 120) (pos 130)) in
    (done.state ≡ succeeded)
    × (done.progress.completed ≡ pos 4)
    × (done.checkpoint ≡ some page)
    × (done.finished_at ≡ some (pos 130))
    × (done.version ≡ pos 5)
    × (done.lease_expires_at ≡ none)
unfolding is_blank ◌+ℤ◌
new-run-succeeded_example =
    new-run-succeeded ada (pos 110) (pos 50) (pos 4) page (pos 120) (pos 130) (pos 7) (pos 3)
      (codes "sync") (codes "page") (some (pos 9)) true (pos 100) new-first refl (omega arith)
      (omega arith) (omega arith) (omega arith) (omega arith)
