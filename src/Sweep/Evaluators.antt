-- ===== src/Sweep/Evaluators.antt =====
-- The evaluators of src/notary_platform/sweep/evaluators/: each looks at a frozen record in its
-- context and returns an assessment. `parameters.get(key, default)` is a field of a record of
-- optional values, one record for each evaluator. The theorems are in the modules below.
pub mod Outcome
pub mod Findings
use notary_platform.Prelude.{
  ℕ, String, Bool, true, false, not, ◌&&◌, ◌||◌, ◌==◌, Option, none, some, List, [], ◌∷◌, ◌++◌, leb,
  length, if◌then◌else◌, nonblank, nonempty, elem, join, ◌<>◌, show, keep, is_in,
}
use notary_platform.Dict.{or_else}
use notary_platform.Value.{Fields, end, field, texts, text, num, Draw}
use notary_platform.Records.Contract.{EvaluatorContractRecord}
use notary_platform.Records.Assessment.{AssessmentRecord, blank, post_init}
use notary_platform.Sweep.Evidence.{FrozenDecisionEvidenceRecord, ResolvedContext}

-- The condition under which a prerequisite of a contract counts as missing; a prerequisite of
-- any other name never does.
unfoldable pub prerequisite_missing : FrozenDecisionEvidenceRecord → String → Bool
prerequisite_missing r prereq =
    if prereq == "context_resolved" && not (nonblank r.resolution_trace_id)
    then true
    else if prereq == "context_bindings" && not (nonempty r.context_binding_ids)
    then true
    else if prereq == "source_resources" && not (nonempty r.source_resource_ids)
    then true
    else prereq == "link_assertions" && not (nonempty r.link_assertion_ids)

unfoldable pub check_prerequisites :
    EvaluatorContractRecord → FrozenDecisionEvidenceRecord → List String
unfolding keep prerequisite_missing
check_prerequisites contract r = keep (prerequisite_missing r) contract.required_prerequisites

-- An assessment of the record by the contract's evaluator; the fields that every assessment sets.
pub assessment_of :
    Draw
    → EvaluatorContractRecord
    → FrozenDecisionEvidenceRecord
    → (finding_type status summary : String) → Fields
    → AssessmentRecord
unfolding post_init
assessment_of draw contract r finding_type status summary details = post_init draw (record blank {
  org_id = r.org_id;
  run_id = "";
  evaluator_id = contract.id;
  evaluator_version = contract.version;
  der_id = r.id;
  finding_type = finding_type;
  status = status;
  summary = summary;
  details = details;
})

pub skip_assessment :
    Draw → EvaluatorContractRecord → FrozenDecisionEvidenceRecord → List String → AssessmentRecord
skip_assessment draw contract r missing =
    assessment_of draw contract r "" "skipped" ("Missing prerequisites: " <> join ", " missing)
      (field "missing_prerequisites" (texts missing) end)

-- ReplayabilityFailureEvaluator

pub record ReplayabilityParameters : Type 0 where
  pub cassette_missing : Option Bool
  pub mutable_dependencies : Option (List String)
  pub unsupported_tools : Option (List String)
  pub missing_seed : Option Bool
  pub runner_available : Option Bool
  pub needs_instrumentation : Option Bool

abbrev pub list_if {ℓ} : {A : Type ℓ} → Bool → A → List A
list_if b x = if b then x ∷ [] else []

-- each finding with the action recommended for it, in the order of the source
pub replay_findings :
    FrozenDecisionEvidenceRecord
    → ResolvedContext
    → ReplayabilityParameters
    → List (String × String)
replay_findings r c p =
    list_if (or_else p.cassette_missing false)
      ("missing_cassette_calls", "Capture API calls with the Notary SDK cassette recorder")
    ++ (list_if (nonempty (or_else p.mutable_dependencies [])) (
      "mutable_dependencies",
      "Freeze or sandbox dependencies: " <> join ", " (or_else p.mutable_dependencies []),
    )
        ++ (list_if (nonempty (or_else p.unsupported_tools [])) (
          "unsupported_tools",
          "Replace unsupported tools: " <> join ", " (or_else p.unsupported_tools []),
        )
            ++ (list_if (or_else p.missing_seed false)
                  ("missing_seed_or_configuration", "Provide seed data and configuration snapshot")
                ++ (list_if (not (or_else p.runner_available true))
                      ("runner_unavailable", "Deploy or configure the Notary replay runner")
                    ++ (list_if (or_else p.needs_instrumentation false) (
                      "required_instrumentation", "Instrument the application with the Notary SDK",
                    )
                        ++ (list_if (not (leb 1 r.version))
                              ("no_sealed_evidence", "Seal evidence with integrity verification")
                            ++ list_if (nonempty c.missing_artifacts) (
                              "missing_context_artifacts",
                              "Provide missing context artifacts: "
                                  <> join ", " c.missing_artifacts,
                            )))))))

abbrev firsts : List (String × String) → List String
firsts [] = []
firsts ((a, b) ∷ l) = a ∷ firsts l

abbrev seconds : List (String × String) → List String
seconds [] = []
seconds ((a, b) ∷ l) = b ∷ seconds l

pub evaluate_replayability :
    Draw
    → EvaluatorContractRecord
    → FrozenDecisionEvidenceRecord
    → ResolvedContext
    → ReplayabilityParameters
    → AssessmentRecord
evaluate_replayability draw contract r c p =
    let missing = check_prerequisites contract r in
    let found = replay_findings r c p in
    let details = λ (rest : Fields). field "findings" (texts (firsts found)) (
      field "recommended_actions" (texts (seconds found)) (
        field "source_resource_count" (num (length r.source_resource_ids))
          (field "context_binding_count" (num (length r.context_binding_ids)) rest))) in
    if nonempty missing
    then skip_assessment draw contract r missing
    else if nonempty found
    then assessment_of draw contract r "replayability_failure" "assessed"
        ("Replayability blocked: " <> show (length found) <> " issue(s)") (details end)
    else assessment_of draw contract r "" "assessed" "Decision is replayable"
        (details (field "status" (text "replayable") end))

-- MissingEvidenceEvaluator

pub record EvidenceGaps : Type 0 where
  pub missing : List String
  pub redacted : List String
  pub stale : List String
  pub conflicted : List String

-- The four lists of gaps. `text_of_record` is Python's `str` of the frozen dataclass; a required
-- field counts as missing when that text does not hold it.
pub evidence_gaps :
    (FrozenDecisionEvidenceRecord → String)
    → FrozenDecisionEvidenceRecord
    → ResolvedContext
    → List String
    → EvidenceGaps
unfolding keep elem
evidence_gaps text_of_record r c required_fields = record {
  missing =
      list_if (not (nonempty r.source_resource_ids)) "source_resources"
      ++ (keep (λ rid. elem rid c.missing_artifacts) r.source_resource_ids
          ++ keep (λ f. not (is_in f (text_of_record r))) required_fields);
  redacted = keep (λ rid. elem rid c.redacted_artifacts) r.source_resource_ids;
  stale = keep (λ rid. elem rid c.stale_artifacts) r.source_resource_ids;
  conflicted = keep (λ rid. elem rid c.conflicted_bindings) r.source_resource_ids;
}

pub has_gaps : EvidenceGaps → Bool
has_gaps g =
    nonempty g.missing || (nonempty g.redacted || (nonempty g.stale || nonempty g.conflicted))

abbrev count_if : List String → String → String → String
count_if items before after = if nonempty items then before <> show (length items) <> after else ""

pub gap_details : FrozenDecisionEvidenceRecord → EvidenceGaps → Fields → Fields
gap_details r g rest = field "observed_resources" (texts r.source_resource_ids) (
    field "missing" (texts g.missing) (
      field "redacted" (texts g.redacted) (
        field "stale" (texts g.stale)
          (field "conflicted" (texts g.conflicted) (field "unverifiable" (texts []) rest)))))

pub evaluate_missing_evidence :
    (FrozenDecisionEvidenceRecord → String)
    → Draw
    → EvaluatorContractRecord
    → FrozenDecisionEvidenceRecord
    → ResolvedContext
    → Option (List String)
    → AssessmentRecord
evaluate_missing_evidence text_of_record draw contract r c required_fields =
    let missing = check_prerequisites contract r in
    let g = evidence_gaps text_of_record r c (or_else required_fields []) in
    if nonempty missing
    then skip_assessment draw contract r missing
    else if has_gaps g
    then assessment_of draw contract r "missing_evidence" "assessed"
        ("Evidence gaps found"
          <> count_if g.missing ": " " missing"
          <> count_if g.redacted ", " " redacted"
          <> count_if g.stale ", " " stale"
          <> count_if g.conflicted ", " " conflicted")
        (gap_details r g end)
    else assessment_of draw contract r "" "assessed" "All required evidence present"
        (gap_details r g (field "status" (text "sufficient") end))
