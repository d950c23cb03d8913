-- ===== src/Sweep/Evaluators/Outcome.antt =====
-- `ExpectedOutcomeMismatchEvaluator` of src/notary_platform/sweep/evaluators/expected_outcome.py.
-- Python's `str.strip`, `str.lower` and its floats are the fields of `TextOps`.
use notary_platform.Prelude.{
  String, ◌≡◌, Bool, true, false, not, ◌||◌, ◌==◌, eq_refl, Option, some, arith, if◌then◌else◌,
  nonblank, nonempty,
}
use notary_platform.Dict.{or_else}
use notary_platform.Value.{Fields, end, field, text, bool, Draw}
use notary_platform.Records.Contract.{EvaluatorContractRecord}
use notary_platform.Records.Assessment.{AssessmentRecord}
use notary_platform.Sweep.Evidence.{FrozenDecisionEvidenceRecord}
use notary_platform.Sweep.Evaluators.{check_prerequisites, skip_assessment, assessment_of}

pub record TextOps : Type 0 where
  pub strip : String → String
  pub lower : String → String
  -- abs(float(a) - float(b)) > 0.001; `none` where `float` raises
  pub far_apart : String → String → Option Bool

pub record OutcomeParameters : Type 0 where
  pub actual_outcome : Option String
  pub expected_outcome : Option String
  pub comparison_rule : Option String

-- `_compare`: true is a mismatch
unfoldable pub mismatched : TextOps → (actual expected rule : String) → Bool
mismatched ops actual expected rule =
    if rule == "exact"
    then not (ops.strip actual == ops.strip expected)
    else if rule == "case_insensitive"
    then not (ops.lower (ops.strip actual) == ops.lower (ops.strip expected))
    else if rule == "numeric"
    then or_else (ops.far_apart actual expected) true
    else not (actual == expected)

unfoldable pub evaluate_outcome :
    TextOps
    → Draw
    → EvaluatorContractRecord
    → FrozenDecisionEvidenceRecord
    → OutcomeParameters
    → AssessmentRecord
evaluate_outcome ops draw contract r p =
    let missing = check_prerequisites contract r in
    let actual = or_else p.actual_outcome "" in
    let expected = or_else p.expected_outcome "" in
    let rule = or_else p.comparison_rule "exact" in
    let mismatch = mismatched ops actual expected rule in
    let details = λ (rest : Fields). field "actual_outcome" (text actual) (
      field "expected_outcome" (text expected) (
        field "comparison_rule" (text rule) (
          field "mismatch" (bool mismatch)
            (field "identity_method" (text r.identity_method) rest)))) in
    if nonempty missing
    then skip_assessment draw contract r missing
    else if r.identity_method == "inferred" || r.identity_method == "similarity"
    then assessment_of draw contract r "" "skipped"
        "Expected-outcome mismatch cannot run on inferred or unconfirmed identity"
        (field "identity_method" (text r.identity_method)
          (field "reason" (text "requires confirmed identity for outcome comparison") end))
    else if not (nonblank actual) || not (nonblank expected)
    then assessment_of draw contract r "missing_evidence" "assessed"
        "Missing outcome data for comparison"
        (field "has_actual" (bool (nonblank actual))
          (field "has_expected" (bool (nonblank expected)) end))
    else if mismatch
    then assessment_of draw contract r "expected_outcome_mismatch" "assessed"
        "Actual outcome does not match expected outcome" (details end)
    else assessment_of draw contract r "" "assessed" "Actual outcome matches expected outcome"
        (details (field "status" (text "matched") end))

-- Equal outcomes are a mismatch under no rule but the numeric one, for which they must be texts
-- that `float` reads as the same number.
pub mismatched_self :
    (ops : TextOps) (outcome rule : String)
    → ((rule == "numeric") ≡ true → ops.far_apart outcome outcome ≡ some false)
    → mismatched ops outcome outcome rule ≡ false
unfolding mismatched
mismatched_self ops outcome rule numeric =
    ground
      (arith, eq_refl outcome, eq_refl (ops.strip outcome), eq_refl (ops.lower (ops.strip outcome)))
