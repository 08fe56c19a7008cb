-- ===== src/Analysis/Run.antt =====
-- The analysis run of internal/analysis/run.go: the types of a run and its transitions. JSON is a
-- parameter: `valid` is json.Valid and `unmarshal` json.Unmarshal into Output (none: its error), of
-- raw bytes as a list of numbers. A cost is a float64, here its 64 bits. The map `accessible` is a
-- function of the chunk. `cloneRun` copies what is a value here. Go's `==` on instants is equality.
use native.Mathlib.Decide.{ℕ_discrete}
use opensource_project_intel.Base.{
  ℕ, ◌+◌, ◌^◌, Bool, true, false, ◌&&◌, ◌||◌, not, Option, none, some, List, [], ◌∷◌, ◌++◌,
  if◌then◌else◌, ltb, leb, Eq, ◌==◌, eq_of_discrete, ◌≡◌, ◌↔◌, arith,
}
use opensource_project_intel.Base.Int.{ℤ, pos, ltb_ℤ, nonpositive, int_eq, int_beq, int_beq_iff}
use opensource_project_intel.Base.Lists.{contains}
use opensource_project_intel.Base.Result.{Result, ok, err, ◌>>=◌, ◌>>◌, fail_if}
use opensource_project_intel.Base.Text.{Text, text_eq, is_blank, trim_space}

pub data State : Type 0 where
  queued running succeeded failed cancelled : State
  other : Text → State

unfoldable pub State-discrete : Discrete State
State-discrete = hlevel ℕ_discrete

instance abbrev pub State_eq : Eq State
State_eq = eq_of_discrete State-discrete

pub data Error : Type 0 where
  invalid_run schema evidence_rejected selection_rejected : Error

-- knowledge.Citation.
pub record Citation : Type 0 where
  pub snapshot_id : ℤ
  pub chunk_id : ℤ
  pub start_offset : ℤ
  pub end_offset : ℤ

abbrev pub citation_beq : Citation → Citation → Bool
citation_beq a b =
    int_beq a.snapshot_id b.snapshot_id
    && int_beq a.chunk_id b.chunk_id
    && int_beq a.start_offset b.start_offset
    && int_beq a.end_offset b.end_offset

pub citation_beq_iff : (a b : Citation) → (citation_beq a b ≡ true) ↔ (a ≡ b)
citation_beq_iff a b = ground (
  arith,
  int_beq_iff a.snapshot_id b.snapshot_id,
  int_beq_iff a.chunk_id b.chunk_id,
  int_beq_iff a.start_offset b.start_offset,
  int_beq_iff a.end_offset b.end_offset,
)

instance abbrev pub citation_eq : Eq Citation
citation_eq = record { beq = citation_beq; beq_iff = citation_beq_iff }

pub record UsageRecord : Type 0 where
  pub input_tokens : ℤ
  pub output_tokens : ℤ
  pub cost : ℕ
  pub currency : Text

pub record Claim : Type 0 where
  pub text : Text
  pub citations : List Citation

pub record Output : Type 0 where
  pub summary : Text
  pub claims : List Claim

abbrev pub Bytes : Type 0
Bytes = List ℕ

pub record Run : Type 0 where
  pub id : ℤ
  pub series_id : ℤ
  pub project_id : ℤ
  pub parent_run_id : Option ℤ
  pub kind : Text
  pub state : State
  pub prompt_version : Text
  pub schema_version : Text
  pub retrieval_version : Text
  pub provider : Text
  pub model : Text
  pub language : Text
  pub requested_by : ℤ
  pub reason : Text
  pub cutoff : ℤ
  pub created_at : ℤ
  pub started_at : Option ℤ
  pub finished_at : Option ℤ
  pub output : Bytes
  pub evidence : List Citation
  pub usage : UsageRecord
  pub failure_code : Text

-- The conditions on the attributes that `NewRun` and `ValidateForPersistence` share.
unfoldable pub unattributed : Run → Bool
unattributed run =
    nonpositive run.id
    || nonpositive run.series_id
    || nonpositive run.project_id
    || is_blank run.kind
    || is_blank run.prompt_version
    || is_blank run.schema_version
    || is_blank run.retrieval_version
    || is_blank run.provider
    || is_blank run.model
    || is_blank run.language
    || nonpositive run.requested_by
    || (run.cutoff == pos 0)
    || (run.created_at == pos 0)

unfoldable pub new_run : Run → Result Error Run
unfolding unattributed
new_run value =
    if unattributed value
    then err invalid_run
    else ok (record value {
      provider = trim_space value.provider;
      model = trim_space value.model;
      language = trim_space value.language;
      reason = trim_space value.reason;
      state = queued;
      output = [];
      evidence = [];
    })

unfoldable pub start : Run → ℤ → Result Error Run
start run now =
    if not (run.state == queued) || ltb_ℤ now run.created_at
    then err invalid_run
    else ok (record run { state = running; started_at = some now })

-- `run.StartedAt == nil || now.Before(*run.StartedAt)`.
unfoldable pub before_start : Option ℤ → ℤ → Bool
before_start none now = true
before_start (some started) now = ltb_ℤ now started

-- `stored, exists := accessible[citation.ChunkID]; !exists || stored != citation`.
unfoldable pub granted : Option Citation → Citation → Bool
granted none citation = false
granted (some stored) citation = stored == citation

-- The inner loop of `validateOutput`.
unfoldable pub collect :
    (ℤ → Option Citation) → List Citation → List Citation → Result Error (List Citation)
unfolding granted
collect accessible evidence [] = ok evidence
collect accessible evidence (citation ∷ citations) =
    fail_if (not (granted (accessible citation.chunk_id) citation)) evidence_rejected
    >> collect accessible
        (if contains evidence citation then evidence else evidence ++ citation ∷ []) citations

-- `len(claim.Citations) == 0`.
abbrev pub no_citations : List Citation → Bool
no_citations [] = true
no_citations (_ ∷ _) = false

abbrev pub no_claims : List Claim → Bool
no_claims [] = true
no_claims (_ ∷ _) = false

-- The outer loop of `validateOutput`.
unfoldable pub collect_claims :
    (ℤ → Option Citation) → List Citation → List Claim → Result Error (List Citation)
unfolding collect
collect_claims accessible evidence [] = ok evidence
collect_claims accessible evidence (claim ∷ claims) =
    fail_if (is_blank claim.text || no_citations claim.citations) evidence_rejected
    >> (collect accessible evidence claim.citations >>= λ evidence'.
        collect_claims accessible evidence' claims)

unfoldable pub check_output : (ℤ → Option Citation) → Option Output → Result Error (List Citation)
unfolding collect_claims
check_output accessible none = err schema
check_output accessible (some output) =
    fail_if (is_blank output.summary || no_claims output.claims) schema
    >> collect_claims accessible [] output.claims

unfoldable pub validate_output :
    (Bytes → Bool)
    → (Bytes → Option Output)
    → Bytes
    → (ℤ → Option Citation)
    → Result Error (List Citation)
unfolding check_output
validate_output valid unmarshal raw accessible =
    fail_if (not (valid raw)) schema >> check_output accessible (unmarshal raw)

-- `cost < 0` of a float64: the sign is set, and it is no zero and no NaN.
unfoldable pub negative_float : ℕ → Bool
negative_float bits = ltb (2 ^ 63) bits && leb bits (2 ^ 63 + 0x7FF0_0000_0000_0000)

unfoldable pub validate_usage : UsageRecord → Result Error (Unit {0})
unfolding negative_float
validate_usage usage =
    fail_if
      (ltb_ℤ usage.input_tokens (pos 0)
        || ltb_ℤ usage.output_tokens (pos 0)
        || negative_float usage.cost)
      invalid_run

unfoldable pub succeed :
    (Bytes → Bool)
    → (Bytes → Option Output)
    → Run
    → Bytes
    → (ℤ → Option Citation)
    → UsageRecord
    → ℤ
    → Result Error Run
unfolding before_start validate_output validate_usage
succeed valid unmarshal run raw accessible usage now = do
  fail_if (not (run.state == running) || before_start run.started_at now || not (valid raw)) schema
  evidence ← validate_output valid unmarshal raw accessible
  validate_usage usage
  ok (record run {
    state = succeeded;
    finished_at = some now;
    output = raw;
    evidence = evidence;
    usage = usage;
  })

unfoldable pub fail : Run → Text → ℤ → Result Error Run
unfolding before_start
fail run code now =
    if not (run.state == running) || is_blank code || before_start run.started_at now
    then err invalid_run
    else ok (record run { state = failed; finished_at = some now; failure_code = trim_space code })

unfoldable pub cancel : Run → ℤ → Result Error Run
unfolding before_start
cancel run now =
    if not (run.state == running) || before_start run.started_at now
    then err invalid_run
    else ok (record run { state = cancelled; finished_at = some now })
