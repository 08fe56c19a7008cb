-- ===== src/Analysis/Persistence.antt =====
-- The runs of internal/analysis/run.go that its own transitions make, at the storage boundary.
use opensource_project_intel.Base.{
  ◌≡◌, refl, sym, inl, inr, ◌≢◌, Bool, true, false, Option, none, some, List, [], ◌∷◌, ◌++◌, arith,
  Option-cases, ap,
}
use opensource_project_intel.Base.Int.{ℤ, int_eq, int_beq_iff}
use opensource_project_intel.Base.Lists.{contains, All}
use opensource_project_intel.Base.Result.{ok}
use opensource_project_intel.Base.Text.{text_eq}
use opensource_project_intel.Analysis.Run.{
  State_eq, Citation, citation_eq, citation_beq_iff, Claim, Output, Bytes, Run, granted, collect,
  collect_claims, check_output, validate_output,
}
use opensource_project_intel.Analysis.Storage.{
  nonempty, malformed_citation, clashes, put, rebuild, same_citations, check_evidence,
}
use opensource_project_intel.Analysis.Evidence.{
  Resolves, Resolves-contains, noted, collect-contains, claims-contains, claims-step, cited,
  contains-append, output-step, validate_output-cited, collect-step,
}

same_citations_refl : (es : List Citation) → same_citations es es ≡ true
same_citations_refl [] = ground arith
same_citations_refl (e ∷ es) = ground (arith, same_citations_refl es, citation_beq_iff e e)

-- Every entry of the first map stands in the second.
abbrev Extends : (ℤ → Option Citation) → (ℤ → Option Citation) → Type 0
Extends small large = (chunk : ℤ) (c : Citation) → small chunk ≡ some c → large chunk ≡ some c

put-Extends :
    (m accessible : ℤ → Option Citation) (e : Citation)
    → Extends m accessible
    → accessible e.chunk_id ≡ some e
    → Extends (put m e) accessible
unfolding put
put-Extends m accessible e x r chunk c h = ground (arith, int_beq_iff chunk e.chunk_id, x chunk c)

Extends-put :
    (m accessible : ℤ → Option Citation) (e : Citation)
    → Extends m accessible
    → accessible e.chunk_id ≡ some e
    → Extends m (put m e)
unfolding put
Extends-put m accessible e x r chunk c h = ground (arith, int_beq_iff chunk e.chunk_id, x chunk c h)

put_self : (m : ℤ → Option Citation) (e : Citation) → put m e e.chunk_id ≡ some e
unfolding put
put_self m e = ground (arith, int_beq_iff e.chunk_id e.chunk_id)

clashes-none :
    (m accessible : ℤ → Option Citation) (e : Citation)
    → Extends m accessible
    → accessible e.chunk_id ≡ some e
    → clashes (m e.chunk_id) e ≡ false
unfolding clashes
clashes-none m accessible e x r = elim (Option-cases (m e.chunk_id)) [
  | inl n ↦ ground arith
  | inr (c, s) ↦ ground (arith, x e.chunk_id c s, citation_beq_iff c e)
]

-- Evidence found in some map, with well-formed citations, rebuilds a map that has it.
rebuild_lem :
    (m accessible : ℤ → Option Citation) (es : List Citation)
    → Extends m accessible
    → Resolves accessible es
    → All (λ c. malformed_citation c ≡ false) es
    → (m' : ℤ → Option Citation) × (rebuild m es ≡ ok m') × Extends m m' × Resolves m' es
unfolding rebuild
rebuild_lem m accessible [] x r w = (m, refl, (λ chunk c h. h), tt)
rebuild_lem m accessible (e ∷ es) x r w =
    let (m', b, x', r') =
      rebuild_lem (put m e) accessible es (put-Extends m accessible e x r.0) r.1 w.1 in
    (
      m',
      ground (arith, clashes-none m accessible e x r.0),
      (λ chunk c h. x' chunk c (Extends-put m accessible e x r.0 chunk c h)),
      (x' e.chunk_id e (put_self m e), r'),
    )

-- The loop gives the same evidence with any map that has that evidence.
collect_again :
    (accessible m : ℤ → Option Citation) (es cs : List Citation) {es' : List Citation}
    → collect accessible es cs ≡ ok es'
    → Resolves m es'
    → collect m es cs ≡ ok es'
unfolding collect granted
collect_again accessible m es [] h r = h
collect_again accessible m es (d ∷ cs) {es'} h r =
    let (found, rest) = collect-step accessible es d cs h in
    ground (
      arith,
      collect_again accessible m (noted es d) cs rest r,
      Resolves-contains m es' d r,
      collect-contains accessible es (d ∷ cs) d h,
      citation_beq_iff d d,
    )

collect-Resolves :
    (m : ℤ → Option Citation) (es es' : List Citation)
    → ((c : Citation) → contains es c ≡ true → contains es' c ≡ true)
    → Resolves m es'
    → Resolves m es
collect-Resolves m [] es' s r = tt
collect-Resolves m (e ∷ es) es' s r = (
  Resolves-contains m es' e r (s e ground (arith, citation_beq_iff e e)),
  collect-Resolves m es es' (λ c h. s c ground arith) r,
)

claims_again :
    (accessible m : ℤ → Option Citation) (es : List Citation) (claims : List Claim)
    {es' : List Citation}
    → collect_claims accessible es claims ≡ ok es'
    → Resolves m es'
    → collect_claims m es claims ≡ ok es'
unfolding collect_claims
claims_again accessible m es [] h r = h
claims_again accessible m es (claim ∷ claims) {es'} h r =
    let (text, some_cited, (mid, first, rest)) = claims-step accessible es claim claims h in
    let kept =
      collect-Resolves m mid es'
        (λ c k. ground (arith, claims-contains accessible mid claims c rest)) r in
    ground (
      arith,
      collect_again accessible m es claim.citations first kept,
      claims_again accessible m mid claims rest r,
    )

cited-nonempty : (es : List Citation) (c : Citation) → contains es c ≡ true → nonempty es ≡ true
cited-nonempty [] c h = ground arith
cited-nonempty (e ∷ es) c h = ground arith

claims-nonempty :
    (accessible : ℤ → Option Citation) (claims : List Claim) {es' : List Citation}
    → collect_claims accessible [] claims ≡ ok es'
    → claims ≢ []
    → nonempty es' ≡ true
claims-nonempty accessible [] h n = absurd (n refl)
claims-nonempty accessible (claim ∷ claims) {es'} h n =
    let (text, some_cited, (mid, first, rest)) = claims-step accessible [] claim claims h in
    go claim.citations refl some_cited
  where
    go : (cs : List Citation) → cs ≡ claim.citations → claim.citations ≢ [] → nonempty es' ≡ true
    go [] e k = absurd (k (sym e))
    go (c ∷ cs) e k = cited-nonempty es' c ground (
      arith,
      claims-contains accessible [] (claim ∷ claims) c h,
      contains-append (c ∷ cs) (cited claims) c,
      citation_beq_iff c c,
      ap (λ xs. contains (xs ++ cited claims) c) e,
    )

module _ (valid : Bytes → Bool) (unmarshal : Bytes → Option Output) (raw : Bytes)
    (accessible : ℤ → Option Citation) where
  pub output-nonempty :
      {es : List Citation}
      → validate_output valid unmarshal raw accessible ≡ ok es
      → nonempty es ≡ true
  output-nonempty h =
      let (output, v, u, s, n, c) = output-step valid unmarshal raw accessible h in
      claims-nonempty accessible output.claims c n

  output_again :
      (m : ℤ → Option Citation) {es : List Citation}
      → validate_output valid unmarshal raw accessible ≡ ok es
      → Resolves m es
      → validate_output valid unmarshal raw m ≡ ok es
  unfolding validate_output check_output
  output_again m h r =
      let (output, v, u, s, n, c) = output-step valid unmarshal raw accessible h in
      ground (arith, claims_again accessible m [] output.claims c r)

  -- A run that stores an output with the evidence collected from it passes the check on its evidence.
  pub check_evidence_again :
      (run : Run) {es : List Citation}
      → validate_output valid unmarshal raw accessible ≡ ok es
      → All (λ c. malformed_citation c ≡ false) es
      → run.output ≡ raw
      → run.evidence ≡ es
      → check_evidence valid unmarshal run ≡ ok tt
  unfolding check_evidence
  check_evidence_again run {es} h w o e =
      let (output, u, found, once, same) = validate_output-cited valid unmarshal raw accessible h in
      let (m, b, x, r) =
        rebuild_lem (λ _. none) accessible es (λ chunk c k. absurd ground arith) found w in
      ground (arith, output_again m h r, same_citations_refl es)
