-- ===== src/Sweep/Evaluators/Findings.antt =====
-- When the evaluators of src/notary_platform/sweep/evaluators/ report a finding.
use notary_platform.Prelude.{
  ◌++◌, ◌≡◌, refl, ◌↔◌, Bool, true, false, not, ◌||◌, ◌==◌, Bool-cases, inl, inr, String, Option,
  List, [], arith, leb, nonblank, nonempty,
}
use notary_platform.Dict.{or_else}
use notary_platform.Value.{Draw}
use notary_platform.Records.Contract.{EvaluatorContractRecord}
use notary_platform.Records.Assessment.{AssessmentRecord}
use notary_platform.Sweep.Evidence.{FrozenDecisionEvidenceRecord, ResolvedContext}
use notary_platform.Sweep.Evaluators.{
  check_prerequisites, skip_assessment, assessment_of, list_if, ReplayabilityParameters,
  replay_findings, evaluate_replayability, evidence_gaps, has_gaps, evaluate_missing_evidence,
}
use notary_platform.Sweep.Evaluators.Outcome.{
  TextOps, OutcomeParameters, evaluate_outcome, mismatched,
}

-- Something stands in the way of a replay: no cassette, a mutable dependency, an unsupported
-- tool, no seed, no runner, no instrumentation, no sealed version, or a missing artifact.
abbrev pub is_blocked :
    FrozenDecisionEvidenceRecord → ResolvedContext → ReplayabilityParameters → Bool
is_blocked r c p =
    or_else p.cassette_missing false
    || (nonempty (or_else p.mutable_dependencies [])
        || (nonempty (or_else p.unsupported_tools [])
            || (or_else p.missing_seed false
                || (not (or_else p.runner_available true)
                    || (or_else p.needs_instrumentation false
                        || (not (leb 1 r.version) || nonempty c.missing_artifacts))))))

nonempty-list_if-append :
    (b : Bool) (x : String × String) (rest : List (String × String))
    → nonempty (list_if b x ++ rest) ≡ (b || nonempty rest)
nonempty-list_if-append true x rest = refl
nonempty-list_if-append false x rest = refl

nonempty-list_if : (b : Bool) (x : String × String) → nonempty (list_if b x) ≡ b
nonempty-list_if true x = refl
nonempty-list_if false x = refl

nonempty-replay_findings :
    (r : FrozenDecisionEvidenceRecord) (c : ResolvedContext) (p : ReplayabilityParameters)
    → nonempty (replay_findings r c p) ≡ is_blocked r c p
unfolding replay_findings
nonempty-replay_findings r c p = simp (nonempty-list_if-append, nonempty-list_if)

-- An assessment is not both skipped and with a finding.
abbrev pub quiet : AssessmentRecord → Bool
quiet a = not (a.status == "skipped") || not (nonblank a.finding_type)

module _ (draw : Draw) (contract : EvaluatorContractRecord) (r : FrozenDecisionEvidenceRecord)
    (c : ResolvedContext) where
  -- The replayability evaluator reports a finding exactly when no prerequisite of its contract is
  -- missing and something stands in the way of a replay.
  pub replayability_finding_iff :
      (p : ReplayabilityParameters)
      → (nonblank (evaluate_replayability draw contract r c p).finding_type ≡ true)
        ↔ ((nonempty (check_prerequisites contract r) ≡ false) × (is_blocked r c p ≡ true))
  unfolding evaluate_replayability skip_assessment assessment_of
  replayability_finding_iff p = elim (Bool-cases (nonempty (check_prerequisites contract r))) [
    | inl missing ↦ rw missing (ground arith)
    | inr ready ↦ elim (Bool-cases (is_blocked r c p)) [
      | inl blocked ↦ rw (ready, nonempty-replay_findings r c p, blocked) (ground arith)
      | inr open_path ↦ rw (ready, nonempty-replay_findings r c p, open_path) (ground arith)
    ]
  ]

  quiet-replayability :
      (p : ReplayabilityParameters) → quiet (evaluate_replayability draw contract r c p) ≡ true
  unfolding evaluate_replayability skip_assessment assessment_of
  quiet-replayability p = elim (Bool-cases (nonempty (check_prerequisites contract r))) [
    | inl a ↦ rw a
    | inr a ↦ elim (Bool-cases (nonempty (replay_findings r c p))) [
      | inl b ↦ rw (a, b)
      | inr b ↦ rw (a, b)
    ]
  ]

  quiet-missing_evidence :
      (text_of_record : FrozenDecisionEvidenceRecord → String) (fields : Option (List String))
      → quiet (evaluate_missing_evidence text_of_record draw contract r c fields) ≡ true
  unfolding evaluate_missing_evidence skip_assessment assessment_of
  quiet-missing_evidence text_of_record fields =
      let gaps = has_gaps (evidence_gaps text_of_record r c (or_else fields [])) in
      elim (Bool-cases (nonempty (check_prerequisites contract r))) [
        | inl a ↦ rw a
        | inr a ↦ elim (Bool-cases gaps) [ inl b ↦ rw (a, b) | inr b ↦ rw (a, b) ]
      ]

  quiet-outcome :
      (ops : TextOps) (o : OutcomeParameters)
      → quiet (evaluate_outcome ops draw contract r o) ≡ true
  unfolding evaluate_outcome skip_assessment assessment_of
  quiet-outcome ops o =
      let actual = or_else o.actual_outcome "" in
      let expected = or_else o.expected_outcome "" in
      let rule = or_else o.comparison_rule "exact" in
      elim (Bool-cases (nonempty (check_prerequisites contract r))) [
        | inl a ↦ rw a
        | inr a ↦
            elim (Bool-cases
              (r.identity_method == "inferred" || r.identity_method == "similarity")) [
                | inl b ↦ rw (a, b)
                | inr b ↦ elim (Bool-cases (not (nonblank actual) || not (nonblank expected))) [
                  | inl d ↦ rw (a, b, d)
                  | inr d ↦ elim (Bool-cases (mismatched ops actual expected rule)) [
                    | inl e ↦ rw (a, b, d, e)
                    | inr e ↦ rw (a, b, d, e)
                  ]
                ]
              ]
      ]

  -- No assessment of the three evaluators is both skipped and with a finding.
  pub skipped_has_no_finding :
      (ops : TextOps) (text_of_record : FrozenDecisionEvidenceRecord → String)
      (p : ReplayabilityParameters) (o : OutcomeParameters) (required_fields : Option (List String))
      → (quiet (evaluate_replayability draw contract r c p) ≡ true)
        × (quiet (evaluate_missing_evidence text_of_record draw contract r c required_fields)
            ≡ true)
        × (quiet (evaluate_outcome ops draw contract r o) ≡ true)
  skipped_has_no_finding ops text_of_record p o required_fields = (
    quiet-replayability p,
    quiet-missing_evidence text_of_record required_fields,
    quiet-outcome ops o,
  )
