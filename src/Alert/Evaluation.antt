-- ===== src/Alert/Evaluation.antt =====
-- The occurrence that a rule's facts make: `Evaluate` of internal/alert/alert.go.
use opensource_project_intel.Base.{
  ℕ, suc, ◌+◌, ◌<◌, ◌^◌, ◌≡◌, refl, ◌∙◌, ap, subst, true, false, ◌&&◌, ◌||◌, not, Option, none,
  some, List, [], ◌∷◌, ◌++◌, map, if-split, arith,
}
use opensource_project_intel.Base.Int.{
  ℤ, pos, nonpositive, leb_ℤ, inc64, int_eq, int_beq, int_beq_iff,
}
use opensource_project_intel.Base.Lists.{length, contains, All}
use opensource_project_intel.Base.Result.{Result, ok, ◌>>=◌}
use opensource_project_intel.Alert.{
  Error, open_state, Rule, Fact, Occurrence, sub_time, unfit, alarming, duplicates, suppress,
  opened, merge, evaluate,
}

-- One fact after the other, each on the occurrence that the one before it left.
abbrev pub evaluate_all : Rule → List Fact → Option Occurrence → Result Error (Option Occurrence)
evaluate_all rule [] o = ok o
evaluate_all rule (fact ∷ facts) o = evaluate rule fact o >>= evaluate_all rule facts

-- No identifier stands twice.
abbrev pub IsDuplicateFree : List ℤ → Type 0
IsDuplicateFree [] = Unit
IsDuplicateFree (x ∷ xs) = (contains xs x ≡ false) × IsDuplicateFree xs

-- A fact of the rule that makes an alert.
abbrev pub IsAlert : Rule → Fact → Type 0
IsAlert rule fact = (unfit rule fact ≡ false) × (alarming rule fact ≡ true)

-- Another one of the project in the deduplication window that the first one opens.
abbrev pub IsRepeat : Rule → Fact → Fact → Type 0
IsRepeat rule first fact =
    IsAlert rule fact
    × (fact.project_id ≡ first.project_id)
    × (leb_ℤ (sub_time fact.detected_at first.detected_at) rule.deduplication ≡ true)

-- The occurrence that the first fact opened, after `n` more.
pub record IsShared (rule : Rule) (first : Fact) (n : ℕ) (o : Occurrence) : Type 0 where
  pub of_rule : (o.rule_id ≡ rule.id) × (o.rule_version ≡ rule.version)
  pub of_project : o.project_id ≡ first.project_id
  pub detected : o.first_detected_at ≡ first.detected_at
  pub is_open : o.state ≡ open_state
  pub counted : (o.suppression_count ≡ pos n) × (o.revision ≡ pos (suc n))
  pub different : IsDuplicateFree o.evidence_ids

contains-snoc_id :
    (xs : List ℤ) (y x : ℤ) → contains (xs ++ y ∷ []) x ≡ (contains xs x || int_beq y x)
contains-snoc_id [] y x = ground arith
contains-snoc_id (z ∷ xs) y x = ground (arith, contains-snoc_id xs y x)

IsDuplicateFree-snoc :
    (xs : List ℤ) (y : ℤ)
    → IsDuplicateFree xs
    → contains xs y ≡ false
    → IsDuplicateFree (xs ++ y ∷ [])
IsDuplicateFree-snoc [] y d h = (refl, tt)
IsDuplicateFree-snoc (x ∷ xs) y d h = (
  ground (arith, contains-snoc_id xs y x, int_beq_iff x y, int_beq_iff y x),
  IsDuplicateFree-snoc xs y d.1 ground arith,
)

evaluate-repeat :
    (rule : Rule) (first fact : Fact) (o : Occurrence)
    → (o.rule_id ≡ rule.id) × (o.rule_version ≡ rule.version)
    → o.project_id ≡ first.project_id
    → o.first_detected_at ≡ first.detected_at
    → IsRepeat rule first fact
    → evaluate rule fact (some o) ≡ ok (some (suppress fact o))
unfolding evaluate merge duplicates
evaluate-repeat rule first fact o of_rule p d r = ground (
  arith,
  int_beq_iff o.rule_id rule.id,
  int_beq_iff o.rule_version rule.version,
  int_beq_iff o.project_id fact.project_id,
)

suppress-evidence :
    (fact : Fact) (o : Occurrence) (x : ℤ)
    → nonpositive fact.evidence_id ≡ false
    → contains (suppress fact o).evidence_ids x
      ≡ (contains o.evidence_ids x || int_beq fact.evidence_id x)
unfolding suppress
suppress-evidence fact o x p =
    ground
      (arith, contains-snoc_id o.evidence_ids fact.evidence_id x, int_beq_iff fact.evidence_id x)

suppress-IsShared :
    (rule : Rule) (first fact : Fact) (n : ℕ) (o : Occurrence)
    → n < 2 ^ 62
    → IsShared rule first n o
    → IsShared rule first (suc n) (suppress fact o)
unfolding suppress inc64
suppress-IsShared rule first fact n o b s = record {
  of_rule = s.of_rule;
  of_project = s.of_project;
  detected = s.detected;
  is_open = s.is_open;
  counted = ground (arith, s.counted.0, s.counted.1);
  different =
      if-split IsDuplicateFree
        (not (nonpositive fact.evidence_id) && not (contains o.evidence_ids fact.evidence_id))
        (λ t. IsDuplicateFree-snoc o.evidence_ids fact.evidence_id s.different ground arith)
        (λ f. s.different);
}

-- A fact that makes an alert has its evidence.
alarming-evidence :
    (rule : Rule) (fact : Fact) → alarming rule fact ≡ true → nonpositive fact.evidence_id ≡ false
unfolding alarming
alarming-evidence rule fact h = ground arith

evaluate_all-repeats :
    (rule : Rule) (first : Fact) (facts : List Fact) (n : ℕ) (o : Occurrence)
    → n + length facts < 2 ^ 62
    → IsShared rule first n o
    → All (IsRepeat rule first) facts
    → (o' : Occurrence) × (evaluate_all rule facts (some o) ≡ ok (some o'))
      × IsShared rule first (n + length facts) o'
      × ((x : ℤ)
          → contains o'.evidence_ids x
            ≡ (contains o.evidence_ids x || contains (map (λ f. f.evidence_id) facts) x))
evaluate_all-repeats rule first [] n o b s r =
    (o, refl, subst (λ k. IsShared rule first k o) omega arith s, λ x. ground arith)
evaluate_all-repeats rule first (fact ∷ facts) n o b s (r, rs) =
    let below : n < 2 ^ 62 = omega arith in
    let rest : suc n + length facts < 2 ^ 62 = omega arith in
    let total : suc n + length facts ≡ n + suc (length facts) = omega arith in
    let step = evaluate-repeat rule first fact o s.of_rule s.of_project s.detected r in
    let shared = suppress-IsShared rule first fact n o below s in
    let (o', run, last, ids) =
      evaluate_all-repeats rule first facts (suc n) (suppress fact o) rest shared rs in
    let noted = alarming-evidence rule fact r.0.1 in
    (
      o',
      ap (λ m. m >>= evaluate_all rule facts) step ∙ run,
      subst (λ k. IsShared rule first k o') total last,
      λ x. ids x ∙ ground (arith, suppress-evidence fact o x noted),
    )

evaluate-opens :
    (rule : Rule) (fact : Fact)
    → IsAlert rule fact
    → evaluate rule fact none ≡ ok (some (opened rule fact))
unfolding evaluate merge
evaluate-opens rule fact a = ground (arith, a.0, a.1)

opened-IsShared : (rule : Rule) (fact : Fact) → IsShared rule fact 0 (opened rule fact)
unfolding opened
opened-IsShared rule fact = record {
  of_rule = (refl, refl);
  of_project = refl;
  detected = refl;
  is_open = refl;
  counted = (refl, refl);
  different = (refl, tt);
}

-- A fact that makes an alert, and any number below 2^62 of others of its rule and project within the
-- deduplication window that it opens, make one open occurrence: it is detected first with the
-- first fact, it counts the others as suppressed and in its revision, and its evidence is that of
-- the facts, each once.
pub evaluate-deduplicates :
    (rule : Rule) (first : Fact) (facts : List Fact)
    → IsAlert rule first
    → All (IsRepeat rule first) facts
    → length facts < 2 ^ 62
    → (o : Occurrence) × (evaluate_all rule (first ∷ facts) none ≡ ok (some o))
      × IsShared rule first (length facts) o
      × ((x : ℤ)
          → contains o.evidence_ids x ≡ contains (map (λ f. f.evidence_id) (first ∷ facts)) x)
unfolding opened
evaluate-deduplicates rule first facts a r b =
    let below : 0 + length facts < 2 ^ 62 = omega arith in
    let count : 0 + length facts ≡ length facts = omega arith in
    let (o, run, shared, ids) =
      evaluate_all-repeats rule first facts 0 (opened rule first) below (opened-IsShared rule first)
        r in
    (
      o,
      ap (λ m. m >>= evaluate_all rule facts) (evaluate-opens rule first a) ∙ run,
      subst (λ k. IsShared rule first k o) count shared,
      λ x. ids x ∙ ground arith,
    )
