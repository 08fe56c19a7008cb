-- ===== src/Analysis/History.antt =====
-- Feedback, selections and queries of internal/analysis/run.go. The errors wrapped with a reason are
-- the errors themselves here; Go's `==` on instants is equality.
use opensource_project_intel.Base.{
  ◌^◌, Bool, true, ◌&&◌, ◌||◌, not, List, [], ◌∷◌, ◌++◌, if◌then◌else◌, ltb, ◌==◌, ◌≡◌, ◌↔◌, arith,
  nat_eq,
}
use opensource_project_intel.Base.Int.{
  ℤ, pos, ltb_ℤ, nonpositive, int_eq, int_beq, int_beq_iff, inc64,
}
use opensource_project_intel.Base.Lists.{contains, length}
use opensource_project_intel.Base.Result.{Result, ok, err, ◌>>◌, fail_if}
use opensource_project_intel.Base.Text.{
  Text, text_eq, text_beq, text_beq_iff, is_blank, codes, byte_length,
}
use opensource_project_intel.Analysis.Run.{
  succeeded, State_eq, Error, invalid_run, selection_rejected, Run,
}

pub record Feedback : Type 0 where
  pub id : ℤ
  pub run_id : ℤ
  pub actor_id : ℤ
  pub rating : Text
  pub note : Text
  pub request_id : Text
  pub created_at : ℤ

abbrev pub feedback_beq : Feedback → Feedback → Bool
feedback_beq a b =
    int_beq a.id b.id
    && int_beq a.run_id b.run_id
    && int_beq a.actor_id b.actor_id
    && text_beq a.rating b.rating
    && text_beq a.note b.note
    && text_beq a.request_id b.request_id
    && int_beq a.created_at b.created_at

pub feedback_beq_iff : (a b : Feedback) → (feedback_beq a b ≡ true) ↔ (a ≡ b)
feedback_beq_iff a b = ground (
  arith,
  int_beq_iff a.id b.id,
  int_beq_iff a.run_id b.run_id,
  int_beq_iff a.actor_id b.actor_id,
  text_beq_iff a.rating b.rating,
  text_beq_iff a.note b.note,
  text_beq_iff a.request_id b.request_id,
  int_beq_iff a.created_at b.created_at,
)

abbrev pub ratings : List Text
ratings =
    codes "faithful"
    ∷ codes "partial"
    ∷ codes "not_faithful"
    ∷ codes "correct"
    ∷ codes "incorrect"
    ∷ []

unfoldable pub validate_feedback : Feedback → Run → Result Error (Unit {0})
validate_feedback value run =
    fail_if
      (nonpositive value.id
        || not (value.run_id == run.id)
        || nonpositive value.actor_id
        || not (run.state == succeeded)
        || not (contains ratings value.rating)
        || is_blank value.note
        || is_blank value.request_id
        || value.created_at == pos 0)
      invalid_run

-- `prior.RequestID != value.RequestID || prior.ActorID != value.ActorID || prior.RunID != value.RunID`.
unfoldable pub unrelated : Feedback → Feedback → Bool
unrelated prior value =
    not (prior.request_id == value.request_id)
    || not (prior.actor_id == value.actor_id)
    || not (prior.run_id == value.run_id)

-- The loop of `AppendFeedback` over the priors that are left.
unfoldable pub append_unless_replayed :
    List Feedback → Feedback → List Feedback → Result Error (List Feedback)
unfolding unrelated
append_unless_replayed history value [] = ok (history ++ value ∷ [])
append_unless_replayed history value (prior ∷ priors) =
    let rest = append_unless_replayed history value priors in
    if unrelated prior value
    then rest
    else if feedback_beq prior value
    then ok history
    else err invalid_run

unfoldable pub append_feedback : List Feedback → Run → Feedback → Result Error (List Feedback)
unfolding validate_feedback append_unless_replayed
append_feedback history run value =
    validate_feedback value run >> append_unless_replayed history value history

pub record Selection : Type 0 where
  pub id : ℤ
  pub series_id : ℤ
  pub run_id : ℤ
  pub actor_id : ℤ
  pub version : ℤ
  pub request_id : Text
  pub selected_at : ℤ

abbrev pub selection_beq : Selection → Selection → Bool
selection_beq a b =
    int_beq a.id b.id
    && int_beq a.series_id b.series_id
    && int_beq a.run_id b.run_id
    && int_beq a.actor_id b.actor_id
    && int_beq a.version b.version
    && text_beq a.request_id b.request_id
    && int_beq a.selected_at b.selected_at

pub selection_beq_iff : (a b : Selection) → (selection_beq a b ≡ true) ↔ (a ≡ b)
selection_beq_iff a b = ground (
  arith,
  int_beq_iff a.id b.id,
  int_beq_iff a.series_id b.series_id,
  int_beq_iff a.run_id b.run_id,
  int_beq_iff a.actor_id b.actor_id,
  int_beq_iff a.version b.version,
  text_beq_iff a.request_id b.request_id,
  int_beq_iff a.selected_at b.selected_at,
)

-- The version that the next selection must carry: 1, or `history[len(history)-1].Version+1`.
unfoldable pub next_version : List Selection → ℤ
next_version [] = pos 1
next_version (s ∷ []) = inc64 s.version
next_version (s ∷ t ∷ history) = next_version (t ∷ history)

-- The loop of `Select` over the priors that are left.
unfoldable pub select_unless_replayed :
    List Selection → Selection → List Selection → Result Error (List Selection)
select_unless_replayed history value [] = ok (history ++ value ∷ [])
select_unless_replayed history value (prior ∷ priors) =
    let rest = select_unless_replayed history value priors in
    if prior.request_id == value.request_id
    then (if selection_beq prior value then ok history else err selection_rejected)
    else rest

unfoldable pub select : List Selection → Run → Selection → Result Error (List Selection)
unfolding next_version select_unless_replayed
select history run value =
    if not (run.state == succeeded)
      || nonpositive value.id
      || not (value.run_id == run.id)
      || not (value.series_id == run.series_id)
      || nonpositive value.actor_id
      || value.selected_at == pos 0
      || is_blank value.request_id
    then err selection_rejected
    else if not (value.version == next_version history)
    then err selection_rejected
    else select_unless_replayed history value history

pub record Query : Type 0 where
  pub project_id : ℤ
  pub question : Text
  pub cutoff : ℤ
  pub source_ids : List ℤ
  pub max_results : ℤ
  pub max_output_bytes : ℤ

-- The loop of `Query.Validate`, with the sources seen so far.
unfoldable pub check_sources : List ℤ → List ℤ → Result Error (Unit {0})
check_sources seen [] = ok tt
check_sources seen (source_id ∷ source_ids) =
    fail_if (nonpositive source_id) invalid_run
    >> (fail_if (contains seen source_id) invalid_run
        >> check_sources (source_id ∷ seen) source_ids)

unfoldable pub validate_query : Query → Result Error (Unit {0})
unfolding check_sources
validate_query query =
    fail_if
      (nonpositive query.project_id
        || is_blank query.question
        || query.cutoff == pos 0
        || ltb_ℤ query.max_results (pos 1)
        || ltb_ℤ (pos 100) query.max_results
        || ltb_ℤ query.max_output_bytes (pos 1)
        || ltb_ℤ (pos (2 ^ 20)) query.max_output_bytes)
      invalid_run
    >> (fail_if
          (ltb 4096 (byte_length query.question)
            || contains query.question 0
            || ltb 32 (length query.source_ids))
          invalid_run
        >> check_sources [] query.source_ids)
