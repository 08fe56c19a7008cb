-- ===== src/Analysis/Lifecycle.antt =====
-- Every run of internal/analysis/run.go that `NewRun` and the transitions make can be stored.
use opensource_project_intel.Base.{
  ◌≡◌, refl, subst, inl, inr, Bool, true, false, Option, none, some, List, [], ◌∷◌, arith,
}
use opensource_project_intel.Base.Int.{ℤ, int_eq}
use opensource_project_intel.Base.Lists.{All}
use opensource_project_intel.Base.Result.{Result, ok, ◌>>=◌, Result-cases, >>=-eq-ok}
use opensource_project_intel.Base.Text.{Text, text_eq, trim_space, blank-trim}
use opensource_project_intel.Analysis.Run.{
  queued, running, succeeded, failed, cancelled, State_eq, Error, Citation, UsageRecord, Output,
  Bytes, Run, unattributed, new_run, start, before_start, validate_output, validate_usage, succeed,
  fail, cancel,
}
use opensource_project_intel.Analysis.Storage.{
  bad_parent, starts_early, ends_early, nonempty, malformed_citation, check_state,
  validate_for_persistence,
}
use opensource_project_intel.Analysis.Evidence.{Resolves, validate_output-cited}
use opensource_project_intel.Analysis.Persistence.{output-nonempty, check_evidence_again}

-- A transition with its arguments.
pub data Op : Type 0 where
  begin : ℤ → Op
  publish : Bytes → (ℤ → Option Citation) → UsageRecord → ℤ → Op
  break : Text → ℤ → Op
  interrupt : ℤ → Op

-- The citations that the caller offers have identifiers and a range.
abbrev pub IsFair : Op → Type 0
IsFair (publish raw accessible usage now) =
    (chunk : ℤ) (c : Citation) → accessible chunk ≡ some c → malformed_citation c ≡ false
IsFair _ = Unit

Resolves-well_formed :
    (accessible : ℤ → Option Citation) (es : List Citation)
    → ((chunk : ℤ) (c : Citation) → accessible chunk ≡ some c → malformed_citation c ≡ false)
    → Resolves accessible es
    → All (λ c. malformed_citation c ≡ false) es
Resolves-well_formed accessible [] f r = tt
Resolves-well_formed accessible (e ∷ es) f r =
    (f e.chunk_id e r.0, Resolves-well_formed accessible es f r.1)

module _ (valid : Bytes → Bool) (unmarshal : Bytes → Option Output) where
  unfoldable pub apply : Op → Run → Result Error Run
  apply (begin now) run = start run now
  apply (publish raw accessible usage now) run =
      succeed valid unmarshal run raw accessible usage now
  apply (break code now) run = fail run code now
  apply (interrupt now) run = cancel run now

  unfoldable pub perform : List Op → Run → Result Error Run
  unfolding apply
  perform [] run = ok run
  perform (op ∷ ops) run = apply op run >>= perform ops

  -- What `ValidateForPersistence` asks, check by check.
  pub record IsPersistable (run : Run) : Type 0 where
    pub attributed : unattributed run ≡ false
    pub parent : bad_parent run.parent_run_id run.id ≡ false
    pub usage : validate_usage run.usage ≡ ok tt
    pub ordered : starts_early run.started_at run.created_at ≡ false
    pub finished : ends_early run.finished_at run.started_at ≡ false
    pub state : check_state valid unmarshal run run.state ≡ ok tt

  pub IsPersistable-validates :
      (run : Run) → IsPersistable run → validate_for_persistence valid unmarshal run ≡ ok tt
  unfolding validate_for_persistence
  IsPersistable-validates run p =
      ground (arith, p.attributed, p.parent, p.usage, p.ordered, p.finished, p.state)

  start-IsPersistable :
      (run : Run) (now : ℤ) {run' : Run}
      → IsPersistable run
      → start run now ≡ ok run'
      → IsPersistable run'
  unfolding start check_state starts_early ends_early unattributed
  start-IsPersistable run now {run'} p h = subst IsPersistable e (record {
    attributed = p.attributed;
    parent = p.parent;
    usage = p.usage;
    ordered = ground arith;
    finished = ground (arith, p.state);
    state = ground (arith, p.state);
  })
    where
      e : record run { state = running; started_at = some now } ≡ run'
      e = ground arith

  cancel-IsPersistable :
      (run : Run) (now : ℤ) {run' : Run}
      → IsPersistable run
      → cancel run now ≡ ok run'
      → IsPersistable run'
  unfolding cancel check_state starts_early ends_early before_start unattributed
  cancel-IsPersistable run now {run'} p h = subst IsPersistable e (record {
    attributed = p.attributed;
    parent = p.parent;
    usage = p.usage;
    ordered = p.ordered;
    finished = ground arith;
    state = ground (arith, p.state);
  })
    where
      e : record run { state = cancelled; finished_at = some now } ≡ run'
      e = ground arith

  fail-IsPersistable :
      (run : Run) (code : Text) (now : ℤ) {run' : Run}
      → IsPersistable run
      → fail run code now ≡ ok run'
      → IsPersistable run'
  unfolding fail check_state starts_early ends_early before_start unattributed
  fail-IsPersistable run code now {run'} p h = subst IsPersistable e (record {
    attributed = p.attributed;
    parent = p.parent;
    usage = p.usage;
    ordered = p.ordered;
    finished = ground arith;
    state = ground (arith, p.state, blank-trim code);
  })
    where
      e :
          record run { state = failed; finished_at = some now; failure_code = trim_space code }
          ≡ run'
      e = ground arith

  -- The run that a success makes.
  abbrev published : Run → Bytes → List Citation → UsageRecord → ℤ → Run
  published run raw es usage now = record run {
    state = succeeded;
    finished_at = some now;
    output = raw;
    evidence = es;
    usage = usage;
  }

  succeed-step :
      (run : Run) (raw : Bytes) (accessible : ℤ → Option Citation) (usage : UsageRecord) (now : ℤ)
      {run' : Run}
      → succeed valid unmarshal run raw accessible usage now ≡ ok run'
      → (es : List Citation) × (validate_output valid unmarshal raw accessible ≡ ok es)
        × (run.state ≡ running)
        × (before_start run.started_at now ≡ false)
        × (valid raw ≡ true)
        × (validate_usage usage ≡ ok tt)
        × (published run raw es usage now ≡ run')
  unfolding succeed
  succeed-step run raw accessible usage now {run'} h =
      elim (Result-cases (validate_output valid unmarshal raw accessible)) [
        | inr (x, e) ↦ absurd ground arith
        | inl (es, e) ↦
            (es, e, ground arith, ground arith, ground arith, ground arith, ground arith)
      ]

  succeed-IsPersistable :
      (run : Run) (raw : Bytes) (accessible : ℤ → Option Citation) (usage : UsageRecord) (now : ℤ)
      {run' : Run}
      → valid [] ≡ false
      → IsFair (publish raw accessible usage now)
      → IsPersistable run
      → succeed valid unmarshal run raw accessible usage now ≡ ok run'
      → IsPersistable run'
  unfolding check_state starts_early ends_early before_start unattributed
  succeed-IsPersistable run raw accessible usage now {run'} no_json f p h =
      let (es, e, r, b, v, u, eq) = succeed-step run raw accessible usage now h in
      let (output, m, found, once, same) = validate_output-cited valid unmarshal raw accessible e in
      let made = published run raw es usage now in
      let evidence =
        check_evidence_again valid unmarshal raw accessible made e
          (Resolves-well_formed accessible es f found) refl refl in
      subst IsPersistable eq (record {
        attributed = p.attributed;
        parent = p.parent;
        usage = u;
        ordered = p.ordered;
        finished = b;
        state = ground (
          arith,
          p.state,
          evidence,
          output-nonempty valid unmarshal raw accessible e,
          valid-nonempty raw no_json v,
        );
      })
    where
      valid-nonempty : (bs : Bytes) → valid [] ≡ false → valid bs ≡ true → nonempty bs ≡ true
      valid-nonempty [] n t = ground arith
      valid-nonempty (x ∷ bs) n t = ground arith

  new_run-IsPersistable :
      (value : Run) {run : Run}
      → bad_parent value.parent_run_id value.id ≡ false
      → validate_usage value.usage ≡ ok tt
      → value.started_at ≡ none
      → value.finished_at ≡ none
      → value.failure_code ≡ []
      → new_run value ≡ ok run
      → IsPersistable run
  unfolding new_run check_state starts_early ends_early unattributed
  new_run-IsPersistable value {run} bp vu s f c h = subst IsPersistable e (record {
    attributed =
        ground
          (arith, blank-trim value.provider, blank-trim value.model, blank-trim value.language);
    parent = bp;
    usage = vu;
    ordered = ground arith;
    finished = ground arith;
    state = ground arith;
  })
    where
      e :
          record value {
            provider = trim_space value.provider;
            model = trim_space value.model;
            language = trim_space value.language;
            reason = trim_space value.reason;
            state = queued;
            output = [];
            evidence = [];
          }
          ≡ run
      e = ground arith

  apply-IsPersistable :
      (op : Op) (run : Run) {run' : Run}
      → valid [] ≡ false
      → IsFair op
      → IsPersistable run
      → apply op run ≡ ok run'
      → IsPersistable run'
  unfolding apply
  apply-IsPersistable (begin now) run n f p h = start-IsPersistable run now p h
  apply-IsPersistable (publish raw accessible usage now) run n f p h =
      succeed-IsPersistable run raw accessible usage now n f p h
  apply-IsPersistable (break code now) run n f p h = fail-IsPersistable run code now p h
  apply-IsPersistable (interrupt now) run n f p h = cancel-IsPersistable run now p h

  perform-IsPersistable :
      (ops : List Op) (run : Run) {run' : Run}
      → valid [] ≡ false
      → All IsFair ops
      → IsPersistable run
      → perform ops run ≡ ok run'
      → IsPersistable run'
  unfolding perform
  perform-IsPersistable [] run n f p h = ground arith
  perform-IsPersistable (op ∷ ops) run n f p h =
      let (next, e, rest) = >>=-eq-ok (apply op run) (perform ops) h in
      perform-IsPersistable ops next n f.1 (apply-IsPersistable op run n f.0 p e) rest

  -- A run that `NewRun` makes from a value with no times, no failure code, valid usage and no bad
  -- parent, and any transitions then take without an error, passes `ValidateForPersistence`, where
  -- the empty text is not valid JSON and the citations offered have identifiers and a range.
  pub perform-persists :
      (value : Run) (ops : List Op) {run : Run} {run' : Run}
      → valid [] ≡ false
      → bad_parent value.parent_run_id value.id ≡ false
      → validate_usage value.usage ≡ ok tt
      → value.started_at ≡ none
      → value.finished_at ≡ none
      → value.failure_code ≡ []
      → All IsFair ops
      → new_run value ≡ ok run
      → perform ops run ≡ ok run'
      → validate_for_persistence valid unmarshal run' ≡ ok tt
  perform-persists value ops {run} {run'} n bp vu s f c fair made h =
      IsPersistable-validates run'
        (perform-IsPersistable ops run n fair (new_run-IsPersistable value bp vu s f c made) h)
