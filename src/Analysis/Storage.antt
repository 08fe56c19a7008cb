-- ===== src/Analysis/Storage.antt =====
-- `ValidateForPersistence` of internal/analysis/run.go.
use opensource_project_intel.Base.{
  Bool, true, false, ◌&&◌, ◌||◌, not, Option, none, some, List, [], ◌∷◌, if◌then◌else◌, ◌==◌,
  is_some,
}
use opensource_project_intel.Base.Int.{ℤ, pos, ltb_ℤ, leb_ℤ, nonpositive, int_eq}
use opensource_project_intel.Base.Result.{Result, ok, err, ◌>>=◌, ◌>>◌, fail_if}
use opensource_project_intel.Base.Text.{text_eq, is_blank}
use opensource_project_intel.Analysis.Run.{
  State, queued, running, succeeded, failed, cancelled, other, Error, invalid_run,
  evidence_rejected, Citation, citation_eq, Output, Bytes, Run, unattributed, validate_usage,
  before_start, validate_output,
}

-- `run.ParentRunID != nil && (*run.ParentRunID <= 0 || *run.ParentRunID == run.ID)`.
unfoldable pub bad_parent : Option ℤ → ℤ → Bool
bad_parent none id = false
bad_parent (some parent) id = nonpositive parent || parent == id

-- `run.StartedAt != nil && run.StartedAt.Before(run.CreatedAt)`.
unfoldable pub starts_early : Option ℤ → ℤ → Bool
starts_early none created_at = false
starts_early (some started) created_at = ltb_ℤ started created_at

-- `run.FinishedAt != nil && (run.StartedAt == nil || run.FinishedAt.Before(*run.StartedAt))`.
unfoldable pub ends_early : Option ℤ → Option ℤ → Bool
unfolding before_start
ends_early none started_at = false
ends_early (some finished) started_at = before_start started_at finished

-- `len(xs) > 0`.
abbrev pub nonempty {ℓ} : {A : Type ℓ} → List A → Bool
nonempty [] = false
nonempty (_ ∷ _) = true

unfoldable pub malformed_citation : Citation → Bool
malformed_citation c =
    nonpositive c.snapshot_id
    || nonpositive c.chunk_id
    || ltb_ℤ c.start_offset (pos 0)
    || leb_ℤ c.end_offset c.start_offset

-- `prior, exists := accessible[citation.ChunkID]; exists && prior != citation`.
unfoldable pub clashes : Option Citation → Citation → Bool
clashes none citation = false
clashes (some prior) citation = not (prior == citation)

-- `accessible[citation.ChunkID] = citation`.
unfoldable pub put : (ℤ → Option Citation) → Citation → ℤ → Option Citation
put accessible citation chunk =
    if chunk == citation.chunk_id then some citation else accessible chunk

-- The loop that rebuilds the map from the stored evidence.
unfoldable pub rebuild : (ℤ → Option Citation) → List Citation → Result Error (ℤ → Option Citation)
unfolding malformed_citation clashes put
rebuild accessible [] = ok accessible
rebuild accessible (citation ∷ citations) =
    fail_if (malformed_citation citation) evidence_rejected
    >> (fail_if (clashes (accessible citation.chunk_id) citation) evidence_rejected
        >> rebuild (put accessible citation) citations)

-- slices.Equal.
abbrev pub same_citations : List Citation → List Citation → Bool
same_citations [] [] = true
same_citations (a ∷ xs) (b ∷ ys) = a == b && same_citations xs ys
same_citations _ _ = false

unfoldable pub check_evidence :
    (Bytes → Bool) → (Bytes → Option Output) → Run → Result Error (Unit {0})
unfolding rebuild
check_evidence valid unmarshal run = do
  accessible ← rebuild (λ _. none) run.evidence
  evidence ← validate_output valid unmarshal run.output accessible
  fail_if (not (same_citations evidence run.evidence)) evidence_rejected

-- The cases of the `switch`.
unfoldable pub check_state :
    (Bytes → Bool) → (Bytes → Option Output) → Run → State → Result Error (Unit {0})
unfolding check_evidence
check_state valid unmarshal run queued =
    fail_if
      (is_some run.started_at
        || is_some run.finished_at
        || nonempty run.output
        || nonempty run.evidence
        || not (run.failure_code == []))
      invalid_run
check_state valid unmarshal run running =
    fail_if
      (not (is_some run.started_at)
        || is_some run.finished_at
        || nonempty run.output
        || nonempty run.evidence
        || not (run.failure_code == []))
      invalid_run
check_state valid unmarshal run succeeded =
    fail_if
      (not (is_some run.started_at)
        || not (is_some run.finished_at)
        || not (nonempty run.output)
        || not (nonempty run.evidence)
        || not (run.failure_code == []))
      evidence_rejected
    >> check_evidence valid unmarshal run
check_state valid unmarshal run failed =
    fail_if
      (not (is_some run.started_at)
        || not (is_some run.finished_at)
        || nonempty run.output
        || nonempty run.evidence
        || is_blank run.failure_code)
      invalid_run
check_state valid unmarshal run cancelled =
    fail_if
      (not (is_some run.started_at)
        || not (is_some run.finished_at)
        || nonempty run.output
        || nonempty run.evidence
        || not (run.failure_code == []))
      invalid_run
check_state valid unmarshal run (other s) = err invalid_run

unfoldable pub validate_for_persistence :
    (Bytes → Bool) → (Bytes → Option Output) → Run → Result Error (Unit {0})
unfolding bad_parent starts_early ends_early check_state
validate_for_persistence valid unmarshal run = do
  fail_if (unattributed run || bad_parent run.parent_run_id run.id) invalid_run
  validate_usage run.usage
  fail_if (starts_early run.started_at run.created_at || ends_early run.finished_at run.started_at)
      invalid_run
  check_state valid unmarshal run run.state
