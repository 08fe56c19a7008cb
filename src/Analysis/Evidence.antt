-- ===== src/Analysis/Evidence.antt =====
-- What `validateOutput` of internal/analysis/run.go accepts and collects.
use opensource_project_intel.Base.{
  ◌≡◌, ◌↔◌, inl, inr, ◌≢◌, Bool, true, false, ◌||◌, Option, none, some, List, [], ◌∷◌, ◌++◌,
  if◌then◌else◌, arith, Bool-cases, Option-cases,
}
use opensource_project_intel.Base.Int.{ℤ}
use opensource_project_intel.Base.Lists.{contains, All}
use opensource_project_intel.Base.Result.{ok, is_ok, Result-cases}
use opensource_project_intel.Base.Text.{is_blank}
use opensource_project_intel.Analysis.Run.{
  Citation, citation_eq, citation_beq, citation_beq_iff, Claim, Output, Bytes, granted, collect,
  collect_claims, check_output, validate_output,
}

-- The map gives each citation itself under its chunk.
abbrev pub Resolves : (ℤ → Option Citation) → List Citation → Type 0
Resolves accessible = All λ c. accessible c.chunk_id ≡ some c

-- No citation stands twice.
abbrev pub IsUnrepeated : List Citation → Type 0
IsUnrepeated [] = Unit
IsUnrepeated (c ∷ cs) = (contains cs c ≡ false) × IsUnrepeated cs

granted_iff : (o : Option Citation) (c : Citation) → (granted o c ≡ true) ↔ (o ≡ some c)
unfolding granted
granted_iff none c = ground arith
granted_iff (some stored) c = ground (arith, citation_beq_iff stored c)

pub contains-snoc :
    (es : List Citation) (d c : Citation)
    → contains (es ++ d ∷ []) c ≡ (contains es c || citation_beq d c)
contains-snoc [] d c = ground arith
contains-snoc (e ∷ es) d c = ground (arith, contains-snoc es d c)

snoc-IsUnrepeated :
    (es : List Citation) (d : Citation)
    → IsUnrepeated es
    → contains es d ≡ false
    → IsUnrepeated (es ++ d ∷ [])
snoc-IsUnrepeated [] d u n = ground arith
snoc-IsUnrepeated (e ∷ es) d u n = ground (
  arith,
  snoc-IsUnrepeated es d u.1,
  contains-snoc es d e,
  citation_beq_iff d e,
  citation_beq_iff e d,
)

snoc-Resolves :
    (accessible : ℤ → Option Citation) (es : List Citation) (d : Citation)
    → Resolves accessible es
    → accessible d.chunk_id ≡ some d
    → Resolves accessible (es ++ d ∷ [])
snoc-Resolves accessible [] d r h = ground arith
snoc-Resolves accessible (e ∷ es) d r h = (r.0, snoc-Resolves accessible es d r.1 h)

pub Resolves-contains :
    (accessible : ℤ → Option Citation) (es : List Citation) (c : Citation)
    → Resolves accessible es
    → contains es c ≡ true
    → accessible c.chunk_id ≡ some c
Resolves-contains accessible [] c r h = ground arith
Resolves-contains accessible (e ∷ es) c r h =
    ground (arith, Resolves-contains accessible es c r.1, citation_beq_iff e c)

-- The evidence after one citation.
abbrev pub noted : List Citation → Citation → List Citation
noted evidence c = if contains evidence c then evidence else evidence ++ c ∷ []

noted-contains :
    (es : List Citation) (d c : Citation)
    → contains (noted es d) c ≡ (contains es c || citation_beq d c)
noted-contains es d c = ground (arith, contains-snoc es d c, citation_beq_iff d c)

-- Evidence whose citations are found and stand once.
abbrev pub IsSound : (ℤ → Option Citation) → List Citation → Type 0
IsSound accessible es = Resolves accessible es × IsUnrepeated es

noted-IsSound :
    (accessible : ℤ → Option Citation) (es : List Citation) (d : Citation)
    → IsSound accessible es
    → accessible d.chunk_id ≡ some d
    → IsSound accessible (noted es d)
noted-IsSound accessible es d s h = elim (Bool-cases (contains es d)) [
  | inl b ↦ ground arith
  | inr b ↦ ground (arith, snoc-Resolves accessible es d s.0 h, snoc-IsUnrepeated es d s.1 b)
]

pub collect-step :
    (accessible : ℤ → Option Citation) (es : List Citation) (d : Citation) (cs : List Citation)
    {es' : List Citation}
    → collect accessible es (d ∷ cs) ≡ ok es'
    → (accessible d.chunk_id ≡ some d) × (collect accessible (noted es d) cs ≡ ok es')
unfolding collect
collect-step accessible es d cs h = ground (arith, granted_iff (accessible d.chunk_id) d)

-- The citations that the loop takes are found, and the evidence gains exactly them.
collect-IsSound :
    (accessible : ℤ → Option Citation) (es cs : List Citation) {es' : List Citation}
    → collect accessible es cs ≡ ok es'
    → IsSound accessible es
    → IsSound accessible es' × Resolves accessible cs
unfolding collect
collect-IsSound accessible es [] h s = ground arith
collect-IsSound accessible es (d ∷ cs) h s =
    let (found, rest) = collect-step accessible es d cs h in
    let (sound, resolves) =
      collect-IsSound accessible (noted es d) cs rest (noted-IsSound accessible es d s found) in
    (sound, (found, resolves))

pub collect-contains :
    (accessible : ℤ → Option Citation) (es cs : List Citation) {es' : List Citation} (c : Citation)
    → collect accessible es cs ≡ ok es'
    → contains es' c ≡ (contains es c || contains cs c)
unfolding collect
collect-contains accessible es [] c h = ground arith
collect-contains accessible es (d ∷ cs) c h =
    let (found, rest) = collect-step accessible es d cs h in
    ground (arith, collect-contains accessible (noted es d) cs c rest, noted-contains es d c)

collect_complete :
    (accessible : ℤ → Option Citation) (es cs : List Citation)
    → Resolves accessible cs
    → is_ok (collect accessible es cs) ≡ true
unfolding collect
collect_complete accessible es [] r = ground arith
collect_complete accessible es (d ∷ cs) r =
    ground (
      arith,
      granted_iff (accessible d.chunk_id) d,
      collect_complete accessible (noted es d) cs r.1,
    )

-- A claim with a text and with citations that the map has.
abbrev pub IsBacked : (ℤ → Option Citation) → Claim → Type 0
IsBacked accessible claim =
    (is_blank claim.text ≡ false) × (claim.citations ≢ []) × Resolves accessible claim.citations

-- The citations of the claims, in order.
abbrev pub cited : List Claim → List Citation
cited [] = []
cited (claim ∷ claims) = claim.citations ++ cited claims

pub contains-append :
    (xs ys : List Citation) (c : Citation)
    → contains (xs ++ ys) c ≡ (contains xs c || contains ys c)
contains-append [] ys c = ground arith
contains-append (x ∷ xs) ys c = ground (arith, contains-append xs ys c)

pub claims-step :
    (accessible : ℤ → Option Citation) (es : List Citation) (claim : Claim) (claims : List Claim)
    {es' : List Citation}
    → collect_claims accessible es (claim ∷ claims) ≡ ok es'
    → (is_blank claim.text ≡ false)
      × (claim.citations ≢ [])
      × ((mid : List Citation) × (collect accessible es claim.citations ≡ ok mid)
          × (collect_claims accessible mid claims ≡ ok es'))
unfolding collect_claims
claims-step accessible es claim claims h =
    elim (Result-cases (collect accessible es claim.citations)) [
      | inl (mid, e) ↦ (ground arith, ground arith, (mid, e, ground arith))
      | inr (x, e) ↦ absurd ground arith
    ]

claims-IsSound :
    (accessible : ℤ → Option Citation) (es : List Citation) (claims : List Claim)
    {es' : List Citation}
    → collect_claims accessible es claims ≡ ok es'
    → IsSound accessible es
    → IsSound accessible es' × All (IsBacked accessible) claims
unfolding collect_claims
claims-IsSound accessible es [] h s = ground arith
claims-IsSound accessible es (claim ∷ claims) h s =
    let (text, some_cited, (mid, first, rest)) = claims-step accessible es claim claims h in
    let (sound, resolves) = collect-IsSound accessible es claim.citations first s in
    let (sound', backed) = claims-IsSound accessible mid claims rest sound in
    (sound', ((text, some_cited, resolves), backed))

pub claims-contains :
    (accessible : ℤ → Option Citation) (es : List Citation) (claims : List Claim)
    {es' : List Citation} (c : Citation)
    → collect_claims accessible es claims ≡ ok es'
    → contains es' c ≡ (contains es c || contains (cited claims) c)
unfolding collect_claims
claims-contains accessible es [] c h = ground arith
claims-contains accessible es (claim ∷ claims) c h =
    let (text, some_cited, (mid, first, rest)) = claims-step accessible es claim claims h in
    ground (
      arith,
      collect-contains accessible es claim.citations c first,
      claims-contains accessible mid claims c rest,
      contains-append claim.citations (cited claims) c,
    )

claims_complete :
    (accessible : ℤ → Option Citation) (es : List Citation) (claims : List Claim)
    → All (IsBacked accessible) claims
    → is_ok (collect_claims accessible es claims) ≡ true
unfolding collect_claims
claims_complete accessible es [] b = ground arith
claims_complete accessible es (claim ∷ claims) b =
    elim (Result-cases (collect accessible es claim.citations)) [
      | inl (mid, e) ↦ ground (arith, claims_complete accessible mid claims b.1)
      | inr (x, e) ↦ absurd ground (arith, collect_complete accessible es claim.citations b.0.2)
    ]

-- What an output must be: valid JSON of an output with a summary and with claims, each of which has a
-- text and cites citations that the map gives under their chunk.
unfoldable pub IsPublishable :
    (Bytes → Bool) → (Bytes → Option Output) → Bytes → (ℤ → Option Citation) → Output → Type 0
IsPublishable valid unmarshal raw accessible output =
    (valid raw ≡ true)
    × (unmarshal raw ≡ some output)
    × (is_blank output.summary ≡ false)
    × (output.claims ≢ [])
    × All (IsBacked accessible) output.claims

module _ (valid : Bytes → Bool) (unmarshal : Bytes → Option Output) (raw : Bytes)
    (accessible : ℤ → Option Citation) where
  pub output-step :
      {es : List Citation}
      → validate_output valid unmarshal raw accessible ≡ ok es
      → (output : Output) × (valid raw ≡ true)
        × (unmarshal raw ≡ some output)
        × (is_blank output.summary ≡ false)
        × (output.claims ≢ [])
        × (collect_claims accessible [] output.claims ≡ ok es)
  unfolding validate_output check_output
  output-step h = elim (Option-cases (unmarshal raw)) [
    | inl e ↦ absurd ground arith
    | inr (output, e) ↦ (output, ground arith, e, ground arith, ground arith, ground arith)
  ]

  -- `validateOutput` accepts exactly an output whose JSON is valid, with a summary and claims that all
  -- have a text and citations that the map gives under their chunk.
  pub validate_output_iff :
      (is_ok (validate_output valid unmarshal raw accessible) ≡ true)
      ↔ ((output : Output) × IsPublishable valid unmarshal raw accessible output)
  unfolding validate_output check_output IsPublishable
  validate_output_iff = (
    λ h. elim (Result-cases (validate_output valid unmarshal raw accessible)) [
      | inl (es, e) ↦
          let (output, v, u, s, n, c) = output-step e in
          (output, (v, u, s, n, (claims-IsSound accessible [] output.claims c (tt, tt)).1))
      | inr (x, e) ↦ absurd ground arith
    ],
    λ (output, (v, u, s, n, b)). ground (arith, claims_complete accessible [] output.claims b),
  )

  -- The evidence that `validateOutput` returns holds exactly the citations of the claims, each of them
  -- once, and the map gives each of them under its chunk.
  pub validate_output-cited :
      {es : List Citation}
      → validate_output valid unmarshal raw accessible ≡ ok es
      → (output : Output) × (unmarshal raw ≡ some output)
        × Resolves accessible es
        × IsUnrepeated es
        × ((c : Citation) → contains es c ≡ contains (cited output.claims) c)
  validate_output-cited h =
      let (output, v, u, s, n, c) = output-step h in
      let (sound, backed) = claims-IsSound accessible [] output.claims c (tt, tt) in
      (output, u, sound.0, sound.1, λ d. claims-contains accessible [] output.claims d c)
