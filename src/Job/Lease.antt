-- ===== src/Job/Lease.antt =====
-- Leases on a job: who may hold one, and for how long (`Claim` and `CommitPage` of
-- internal/job/job.go).
use opensource_project_intel.Base.{◌≡◌, ◌≢◌, ◌⊎◌, ◌↔◌, true, false, some, List, [], ◌∷◌, arith}
use opensource_project_intel.Base.Int.{ℤ, pos, ◌<ℤ◌, ◌+ℤ◌}
use opensource_project_intel.Base.Lists.{All}
use opensource_project_intel.Base.Result.{ok, is_ok}
use opensource_project_intel.Base.Text.{Text, text_eq, text_beq_iff, is_blank}
use opensource_project_intel.Job.{
  queued, running, Checkpoint, Job, lease_live, transition, cancel, claim, commit_page, coalesce,
  terminal,
}
use opensource_project_intel.Job.Invariant.{
  Op, transition_op, cancel_op, claim_op, commit_op, coalesce_op, apply, kept, run,
}

-- Calls in which nobody but the holder renews the lease, and rivals call before it ends.
abbrev pub IsRival : Text → ℤ → Op → Type 0
IsRival holder expires (claim_op holder' now ttl) = (holder' ≢ holder) × (now <ℤ expires)
IsRival holder expires _ = Unit

-- The lease is held, or the job is over.
abbrev pub IsHeld : Text → ℤ → Job → Type 0
IsHeld holder expires j =
    (terminal j.state ≡ true) ⊎ ((j.lease_holder ≡ holder) × (j.lease_expires_at ≡ some expires))

apply-IsHeld :
    (holder : Text) (expires : ℤ) (j : Job) (op : Op)
    → IsRival holder expires op
    → IsHeld holder expires j
    → IsHeld holder expires (kept j (apply j op))
unfolding apply transition cancel claim commit_page coalesce terminal lease_live
apply-IsHeld holder expires j (transition_op to now failure) r h = ground arith
apply-IsHeld holder expires j (cancel_op now) r h = ground arith
apply-IsHeld holder expires j (claim_op holder' now ttl) r h =
    ground (arith, text_beq_iff j.lease_holder holder')
apply-IsHeld holder expires j (commit_op holder' completed checkpoint now) r h = ground arith
apply-IsHeld holder expires j coalesce_op r h = ground arith

run-IsHeld :
    (holder : Text) (expires : ℤ) (j : Job) (ops : List Op)
    → All (IsRival holder expires) ops
    → IsHeld holder expires j
    → IsHeld holder expires (run j ops)
unfolding run
run-IsHeld holder expires j [] r h = h
run-IsHeld holder expires j (op ∷ ops) r h =
    run-IsHeld holder expires (kept j (apply j op)) ops r.1 (apply-IsHeld holder expires j op r.0 h)

claim-IsHeld :
    (j : Job) (holder : Text) (now ttl : ℤ) {j' : Job}
    → claim j holder now ttl ≡ ok j'
    → IsHeld holder (now +ℤ ttl) j'
unfolding claim transition terminal
claim-IsHeld j holder now ttl h = ground arith

IsHeld-claim :
    (j : Job) (holder holder' : Text) (expires now ttl : ℤ)
    → IsHeld holder expires j
    → holder' ≢ holder
    → now <ℤ expires
    → is_ok (claim j holder' now ttl) ≡ false
unfolding claim terminal lease_live
IsHeld-claim j holder holder' expires now ttl h n l =
    ground (arith, text_beq_iff j.lease_holder holder')

IsHeld-commit_page :
    (j : Job) (holder holder' : Text) (expires completed : ℤ) (checkpoint : Checkpoint) (now : ℤ)
    → IsHeld holder expires j
    → holder' ≢ holder
    → is_ok (commit_page j holder' completed checkpoint now) ≡ false
unfolding commit_page terminal
IsHeld-commit_page j holder holder' expires completed checkpoint now h n =
    ground (arith, text_beq_iff j.lease_holder holder')

-- Once a holder has claimed a job, and whatever calls follow, the claims among them being other
-- holders' before the lease ends: a claim by another holder before the lease ends returns an
-- error, and so does a page that another holder commits at any time.
pub claim_excludes :
    (j : Job) (holder : Text) (now ttl : ℤ) {j' : Job} (ops : List Op) (rival : Text)
    (claimed ttl' completed : ℤ) (checkpoint : Checkpoint) (committed : ℤ)
    → claim j holder now ttl ≡ ok j'
    → All (IsRival holder (now +ℤ ttl)) ops
    → rival ≢ holder
    → claimed <ℤ now +ℤ ttl
    → (is_ok (claim (run j' ops) rival claimed ttl') ≡ false)
      × (is_ok (commit_page (run j' ops) rival completed checkpoint committed) ≡ false)
claim_excludes j holder now ttl {j'} ops rival claimed ttl' completed checkpoint committed h r n l =
    let held = run-IsHeld holder (now +ℤ ttl) j' ops r (claim-IsHeld j holder now ttl h) in
    (
      IsHeld-claim (run j' ops) holder rival (now +ℤ ttl) claimed ttl' held n l,
      IsHeld-commit_page (run j' ops) holder rival (now +ℤ ttl) completed checkpoint committed held
          n,
    )

-- Who may claim: a named holder, for a positive time, a job that is not over, whose lease is free,
-- has ended or is the holder's own.
abbrev pub MayClaim : Job → Text → ℤ → ℤ → Type 0
MayClaim j holder now ttl =
    (is_blank holder ≡ false)
    × (pos 0 <ℤ ttl)
    × (terminal j.state ≡ false)
    × ((lease_live j.lease_expires_at now ≡ false) ⊎ (j.lease_holder ≡ holder))

-- `Claim` returns no error exactly to a named holder, for a positive time, on a job that is not over
-- and whose lease is free, has ended or is the holder's own.
pub claim_iff :
    (j : Job) (holder : Text) (now ttl : ℤ)
    → (is_ok (claim j holder now ttl) ≡ true) ↔ MayClaim j holder now ttl
unfolding claim transition terminal
claim_iff j holder now ttl = ground (arith, text_beq_iff j.lease_holder holder)

-- A claim that returns no error gives the holder the lease until `ttl` later, and a queued job
-- runs after it; the pages done and the checkpoint stay.
pub claim-takes :
    (j : Job) (holder : Text) (now ttl : ℤ) {j' : Job}
    → claim j holder now ttl ≡ ok j'
    → (j'.lease_holder ≡ holder)
      × (j'.lease_expires_at ≡ some (now +ℤ ttl))
      × ((j'.state ≡ j.state) ⊎ ((j.state ≡ queued) × (j'.state ≡ running)))
      × (j'.progress ≡ j.progress)
      × (j'.checkpoint ≡ j.checkpoint)
unfolding claim transition terminal
claim-takes j holder now ttl h = ground arith
