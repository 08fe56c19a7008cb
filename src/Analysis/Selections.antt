-- ===== src/Analysis/Selections.antt =====
-- The histories that `Select` and `AppendFeedback` of internal/analysis/run.go extend, and the queries.
use opensource_project_intel.Base.{
  ℕ, suc, ◌+◌, ◌≤◌, ◌<◌, ◌^◌, ◌≡◌, refl, ◌↔◌, ◌⊎◌, inl, inr, ◌≢◌, Bool, true, false, ◌||◌, not,
  List, [], ◌∷◌, ◌++◌, ◌==◌, arith, Bool-cases, nat_eq,
}
use opensource_project_intel.Base.Int.{ℤ, pos, int_eq, int_beq_iff, inc64, max_int64, ◌<ℤ◌, ◌≤ℤ◌}
use opensource_project_intel.Base.Lists.{contains, All, length}
use opensource_project_intel.Base.Result.{ok, err, is_ok, >>=-eq-ok}
use opensource_project_intel.Base.Text.{Text, text_eq, text_beq_iff, is_blank, byte_length}
use opensource_project_intel.Analysis.Run.{State_eq, selection_rejected, Run}
use opensource_project_intel.Analysis.History.{
  Feedback, feedback_beq_iff, validate_feedback, unrelated, append_unless_replayed, append_feedback,
  Selection, selection_beq_iff, next_version, select_unless_replayed, select, Query, check_sources,
  validate_query,
}

-- The versions of a history, first to last, from `n`.
abbrev pub NumberedFrom : ℕ → List Selection → Type 0
NumberedFrom n [] = Unit
NumberedFrom n (s ∷ history) = (s.version ≡ pos n) × NumberedFrom (suc n) history

-- The selections are numbered 1, 2, ….
abbrev pub IsNumbered : List Selection → Type 0
IsNumbered = NumberedFrom 1

abbrev pub requested : Text → List Selection → Bool
requested id [] = false
requested id (s ∷ history) = s.request_id == id || requested id history

-- No request stands twice.
abbrev pub HasDistinctRequests : List Selection → Type 0
HasDistinctRequests [] = Unit
HasDistinctRequests (s ∷ history) =
    (requested s.request_id history ≡ false) × HasDistinctRequests history

next_version-numbered :
    (n : ℕ) (s : Selection) (history : List Selection)
    → NumberedFrom n (s ∷ history)
    → n + length history < max_int64
    → next_version (s ∷ history) ≡ pos (suc n + length history)
unfolding next_version inc64
next_version-numbered n s [] h b = ground arith
next_version-numbered n s (t ∷ history) h b =
    ground (arith, next_version-numbered (suc n) t history h.1)

numbered-snoc :
    (n : ℕ) (history : List Selection) (s : Selection)
    → NumberedFrom n history
    → s.version ≡ pos (n + length history)
    → NumberedFrom n (history ++ s ∷ [])
numbered-snoc n [] s h v = ground arith
numbered-snoc n (t ∷ history) s h v = ground (arith, numbered-snoc (suc n) history s h.1)

requested-snoc :
    (id : Text) (history : List Selection) (s : Selection)
    → requested id (history ++ s ∷ []) ≡ (requested id history || s.request_id == id)
requested-snoc id [] s = ground arith
requested-snoc id (t ∷ history) s = ground (arith, requested-snoc id history s)

distinct-snoc :
    (history : List Selection) (s : Selection)
    → HasDistinctRequests history
    → requested s.request_id history ≡ false
    → HasDistinctRequests (history ++ s ∷ [])
distinct-snoc [] s d n = ground arith
distinct-snoc (t ∷ history) s d n = ground (
  arith,
  distinct-snoc history s d.1,
  requested-snoc t.request_id history s,
  text_beq_iff s.request_id t.request_id,
  text_beq_iff t.request_id s.request_id,
)

-- A selection of that version stands in the history.
abbrev pub numbered_by : ℤ → List Selection → Bool
numbered_by version [] = false
numbered_by version (s ∷ history) = s.version == version || numbered_by version history

numbered_by-fresh :
    (n : ℕ) (history : List Selection)
    → NumberedFrom n history
    → (k : ℕ) → n + length history ≤ k
    → numbered_by (pos k) history ≡ false
numbered_by-fresh n [] h k b = ground arith
numbered_by-fresh n (s ∷ history) h k b = ground (arith, numbered_by-fresh (suc n) history h.1 k)

-- What the loop does with the priors that are left.
replay-cases :
    (history : List Selection) (value : Selection) (priors : List Selection)
    → numbered_by value.version priors ≡ false
    → ((requested value.request_id priors ≡ false)
        × (select_unless_replayed history value priors ≡ ok (history ++ value ∷ [])))
      ⊎ ((requested value.request_id priors ≡ true)
          × (select_unless_replayed history value priors ≡ err selection_rejected))
unfolding select_unless_replayed
replay-cases history value [] f = ground arith
replay-cases history value (prior ∷ priors) f = ground (
  arith,
  replay-cases history value priors,
  selection_beq_iff prior value,
  int_beq_iff prior.version value.version,
)

next_version-IsNumbered :
    (history : List Selection)
    → IsNumbered history
    → suc (length history) < max_int64
    → next_version history ≡ pos (suc (length history))
unfolding next_version
next_version-IsNumbered [] h b = ground arith
next_version-IsNumbered (s ∷ history) h b = ground (arith, next_version-numbered 1 s history h)

-- The two ends of `Select` on a numbered history.
select-cases :
    (history : List Selection) (run : Run) (value : Selection)
    → IsNumbered history
    → suc (length history) < max_int64
    → (select history run value ≡ err selection_rejected)
      ⊎ ((select history run value ≡ ok (history ++ value ∷ []))
          × (value.version ≡ pos (suc (length history)))
          × (requested value.request_id history ≡ false))
unfolding select
select-cases history run value n b = elim (Bool-cases (value.version == next_version history)) [
  | inl e ↦ ground (
    arith,
    int_beq_iff value.version (next_version history),
    next_version-IsNumbered history n b,
    numbered_by-fresh 1 history n (suc (length history)),
    replay-cases history value history,
  )
  | inr e ↦ inl ground arith
]

-- When `Select` returns no error on a history numbered 1, 2, … with distinct requests, short of the
-- largest int64, it returns the history with the selection added, again numbered and with distinct
-- requests.
pub select-IsNumbered :
    (history : List Selection) (run : Run) (value : Selection) {history' : List Selection}
    → IsNumbered history
    → HasDistinctRequests history
    → suc (length history) < max_int64
    → select history run value ≡ ok history'
    → (history' ≡ history ++ value ∷ []) × IsNumbered history' × HasDistinctRequests history'
select-IsNumbered history run value n d b h = elim (select-cases history run value n b) [
  | inl e ↦ absurd ground arith
  | inr (e, v, f) ↦ ground (arith, numbered-snoc 1 history value n, distinct-snoc history value d f)
]

-- On a history numbered 1, 2, …, short of the largest int64, `Select` refuses a selection whose request
-- the history has: an exact replay of an earlier selection gets the error, like one that differs.
pub select-refuses_replay :
    (history : List Selection) (run : Run) (value : Selection)
    → IsNumbered history
    → suc (length history) < max_int64
    → requested value.request_id history ≡ true
    → select history run value ≡ err selection_rejected
select-refuses_replay history run value n b r = elim (select-cases history run value n b) [
  | inl e ↦ e
  | inr (e, v, f) ↦ absurd ground arith
]

-- The feedback of the history that answers the same request of the same actor on the same run.
abbrev pub answered : Feedback → List Feedback → Bool
answered value [] = false
answered value (prior ∷ priors) = not (unrelated prior value) || answered value priors

append-cases :
    (history : List Feedback) (value : Feedback) (priors : List Feedback) {history' : List Feedback}
    → append_unless_replayed history value priors ≡ ok history'
    → ((answered value priors ≡ false) × (history' ≡ history ++ value ∷ []))
      ⊎ ((answered value priors ≡ true)
          × (history' ≡ history)
          × ((other : List Feedback) → append_unless_replayed other value priors ≡ ok other))
unfolding append_unless_replayed
append-cases history value [] h = ground arith
append-cases history value (prior ∷ priors) {history'} h =
    elim (Bool-cases (unrelated prior value)) [
      | inl u ↦ elim (append-cases history value priors {history' = history'} (ground arith)) [
        | inl (a, e) ↦ inl ground arith
        | inr (a, e, f) ↦ inr (ground arith, e, λ other. ground (arith, f other))
      ]
      | inr u ↦ inr (ground arith, ground arith, λ other. ground arith)
    ]

replayed-last :
    (other : List Feedback) (value : Feedback) (priors : List Feedback)
    → answered value priors ≡ false
    → append_unless_replayed other value (priors ++ value ∷ []) ≡ ok other
unfolding append_unless_replayed unrelated
replayed-last other value [] a = ground (
  arith,
  text_beq_iff value.request_id value.request_id,
  int_beq_iff value.actor_id value.actor_id,
  int_beq_iff value.run_id value.run_id,
  feedback_beq_iff value value,
)
replayed-last other value (prior ∷ priors) a = ground (arith, replayed-last other value priors)

-- `AppendFeedback` is idempotent: once it returns a history, which is the old one or the old one with
-- the feedback added, the same feedback gives that history again.
pub append_feedback_twice :
    (history : List Feedback) (run : Run) (value : Feedback) {history' : List Feedback}
    → append_feedback history run value ≡ ok history'
    → ((history' ≡ history) ⊎ (history' ≡ history ++ value ∷ []))
      × (append_feedback history' run value ≡ ok history')
unfolding append_feedback
append_feedback_twice history run value {history'} h =
    let (t, v, e) =
      >>=-eq-ok (validate_feedback value run) (λ _. append_unless_replayed history value history)
        h in
    elim (append-cases history value history e) [
      | inl (a, e') ↦ ground (arith, replayed-last history' value history a)
      | inr (a, e', f) ↦ ground (arith, f history')
    ]

-- The sources of a query, without repetition.
abbrev pub ArePositive : List ℤ → Type 0
ArePositive = All λ s. pos 0 <ℤ s

abbrev pub AreApart : List ℤ → Type 0
AreApart [] = Unit
AreApart (s ∷ ss) = (contains ss s ≡ false) × AreApart ss

abbrev pub AreFresh : List ℤ → List ℤ → Type 0
AreFresh seen = All λ s. contains seen s ≡ false

apart-cons :
    (x : ℤ) (seen ss : List ℤ)
    → AreFresh (x ∷ seen) ss ↔ (AreFresh seen ss × (contains ss x ≡ false))
apart-cons x seen [] = ground arith
apart-cons x seen (s ∷ ss) = ground (arith, apart-cons x seen ss, int_beq_iff x s, int_beq_iff s x)

fresh_empty : (ss : List ℤ) → AreFresh [] ss
fresh_empty [] = tt
fresh_empty (s ∷ ss) = (refl, fresh_empty ss)

check_sources_iff :
    (seen ss : List ℤ)
    → (is_ok (check_sources seen ss) ≡ true) ↔ (ArePositive ss × AreFresh seen ss × AreApart ss)
unfolding check_sources
check_sources_iff seen [] = ground arith
check_sources_iff seen (s ∷ ss) =
    ground (arith, check_sources_iff (s ∷ seen) ss, apart-cons s seen ss)

-- What a query must be: within the limits on results, bytes, question and sources.
pub record IsAskable (query : Query) : Type 0 where
  pub project : pos 0 <ℤ query.project_id
  pub question : is_blank query.question ≡ false
  pub short : byte_length query.question ≤ 4096
  pub printable : contains query.question 0 ≡ false
  pub cutoff : query.cutoff ≢ pos 0
  pub results : (pos 1 ≤ℤ query.max_results) × (query.max_results ≤ℤ pos 100)
  pub bytes : (pos 1 ≤ℤ query.max_output_bytes) × (query.max_output_bytes ≤ℤ pos (2 ^ 20))
  pub few_sources : length query.source_ids ≤ 32
  pub positive : ArePositive query.source_ids
  pub apart : AreApart query.source_ids

-- `Query.Validate` returns no error exactly for a query with a project and a cutoff, a question of at most
-- 4096 bytes that is not blank and has no NUL, 1 to 100 results, 1 to 2^20 bytes of output, and at
-- most 32 sources, which are positive and distinct.
pub validate_query_iff : (query : Query) → (is_ok (validate_query query) ≡ true) ↔ IsAskable query
unfolding validate_query
validate_query_iff query = (
  λ h. ground (arith, check_sources_iff [] query.source_ids, int_beq_iff query.cutoff (pos 0)),
  λ h. ground (
    arith,
    check_sources_iff [] query.source_ids,
    fresh_empty query.source_ids,
    int_beq_iff query.cutoff (pos 0),
  ),
)
