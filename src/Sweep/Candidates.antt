-- ===== src/Sweep/Candidates.antt =====
-- `CandidateAssembler` and `CandidateReviewService` of src/notary_platform/sweep/candidates.py.
-- The theorems are in the modules below.
pub mod Assembly
pub mod Review
use notary_platform.Prelude.{
  ℕ, suc, String, Bool, true, false, not, ◌&&◌, ◌||◌, ◌==◌, Option, none, some, List, [], ◌∷◌,
  if◌then◌else◌, nonblank, is_in, elem, next,
}
use notary_platform.Dict.{Dict, get}
use notary_platform.Value.{Value, text, Fields, field?, truthy, Draw, ◌>>=◌}
use notary_platform.Records.Assessment.{AssessmentRecord}
use notary_platform.Records.Candidate
use notary_platform.Records.Candidate.{AssuranceCandidate}
use notary_platform.Records.Review.{ReviewDecision}
use notary_platform.Records.Delegation.{PromotionDelegation}
use notary_platform.Storage.{
  MemoryStorage, create_assurance_candidate, get_assurance_candidate, update_assurance_candidate,
  create_review_decision, list_promotion_delegations,
}
use notary_platform.Sweep.Evidence.{FrozenDecisionEvidenceRecord, ResolvedContext, truthy_or_false}
use notary_platform.Sweep.Sufficiency.{calculate}

-- `details.get(key, "")` of a field that the record declares as a text: `none` stands for a value of
-- another type, as where a record is read from a dict
abbrev pub text_or_empty : Option Value → Option String
text_or_empty none = some ""
text_or_empty (some (text s)) = some s
text_or_empty (some _) = none

pub assess_severity : AssessmentRecord → String
unfolding is_in field? truthy
assess_severity a =
    if is_in "missing" a.finding_type && truthy_or_false (field? "missing" a.details)
    then "high"
    else if a.finding_type == "expected_outcome_mismatch"
    then "high"
    else if a.finding_type == "replayability_failure"
    then "medium"
    else "low"

-- `assessment.status != "assessed" or not assessment.finding_type`
unfoldable pub is_passed_over : AssessmentRecord → Bool
is_passed_over a = not (a.status == "assessed") || not (nonblank a.finding_type)

unfoldable pub candidate_with :
    Draw
    → FrozenDecisionEvidenceRecord
    → (level sweep_run_id environment_id : String) → AssessmentRecord
    → (actual expected : String) → AssuranceCandidate
unfolding assess_severity Candidate.post_init
candidate_with draw r level sweep_run_id environment_id a actual expected =
    Candidate.post_init draw (record Candidate.blank {
      org_id = r.org_id;
      environment_id = environment_id;
      der_id = r.id;
      sweep_run_id = sweep_run_id;
      candidate_type = a.finding_type;
      assessment_ids = a.id ∷ [];
      supporting_resource_ids = r.source_resource_ids;
      context_binding_ids = r.context_binding_ids;
      resolution_trace_id = r.resolution_trace_id;
      evidence_level = level;
      severity = assess_severity a;
      lifecycle_state =
          if elem level ("E2" ∷ "E3" ∷ "E4" ∷ []) then "reviewable" else "needs_context";
      business_summary = a.summary;
      actual_outcome = actual;
      expected_outcome = expected;
    })

pub candidate_from :
    Draw
    → FrozenDecisionEvidenceRecord
    → (level sweep_run_id environment_id : String) → AssessmentRecord
    → Option AssuranceCandidate
unfolding candidate_with field?
candidate_from draw r level sweep_run_id environment_id a = do
  actual ← text_or_empty (field? "actual_outcome" a.details)
  expected ← text_or_empty (field? "expected_outcome" a.details)
  some (candidate_with draw r level sweep_run_id environment_id a actual expected)

abbrev pub with_candidate :
    Option AssuranceCandidate → Option (List AssuranceCandidate) → Option (List AssuranceCandidate)
with_candidate here others = do c ← here; cs ← others; some (c ∷ cs)

-- The loop of `assemble`: `draw k` is the k-th draw, and a draw is made for each candidate.
module _ (draw : ℕ → Draw) (r : FrozenDecisionEvidenceRecord)
    (level sweep_run_id environment_id : String) where
  pub candidates_from : ℕ → List AssessmentRecord → Option (List AssuranceCandidate)
  candidates_from k [] = some []
  candidates_from k (a ∷ rest) =
      let here = candidate_from (draw k) r level sweep_run_id environment_id a in
      let next_k = if is_passed_over a then k else suc k in
      let others = candidates_from next_k rest in
      if is_passed_over a then others else with_candidate here others

pub create_candidates : List AssuranceCandidate → MemoryStorage → MemoryStorage
create_candidates [] s = s
create_candidates (c ∷ rest) s = create_candidates rest (create_assurance_candidate c s)

pub assemble :
    (ℕ → Draw)
    → List AssessmentRecord
    → FrozenDecisionEvidenceRecord
    → ResolvedContext
    → (sweep_run_id environment_id : String) → MemoryStorage
    → Option (List AssuranceCandidate × MemoryStorage)
unfolding candidates_from create_candidates
assemble draw assessments r c sweep_run_id environment_id s = do
  candidates ←
      candidates_from draw r (calculate r c false false).current_level sweep_run_id environment_id 0
        assessments
  some (candidates, create_candidates candidates s)

-- `lifecycle_map`
abbrev pub lifecycle_map : Dict String
lifecycle_map =
    ("approve_incident", "approved_incident")
    ∷ ("dismiss", "dismissed")
    ∷ ("accept_risk", "accepted_risk")
    ∷ ("suppress", "suppressed")
    ∷ ("instrument_next", "instrument_next")
    ∷ ("request_context", "needs_context")
    ∷ []

abbrev pub move_candidate : AssuranceCandidate → Option String → MemoryStorage → MemoryStorage
move_candidate candidate none s = s
move_candidate candidate (some state) s =
    if nonblank state && not (state == candidate.lifecycle_state)
    then update_assurance_candidate (record candidate { lifecycle_state = state }) s
    else s

-- the decisions that need a basis
abbrev pub needs_basis : String → Bool
needs_basis decision =
    elem decision ("approve_incident" ∷ "dismiss" ∷ "accept_risk" ∷ "suppress" ∷ [])

abbrev pub review_found :
    ReviewDecision
    → MemoryStorage
    → Option AssuranceCandidate
    → Option ReviewDecision × MemoryStorage
review_found decision s none = (none, s)
review_found decision s (some candidate) =
    if not (candidate.org_id == decision.org_id)
    then (none, s)
    else if not (nonblank decision.actor)
        || (not (nonblank decision.role) || not (nonblank decision.decision))
    then (none, s)
    else if needs_basis decision.decision && not (nonblank decision.basis)
    then (none, s)
    else (
      some decision,
      move_candidate candidate (get decision.decision lifecycle_map)
          (create_review_decision decision s),
    )

pub record_review : String → ReviewDecision → MemoryStorage → Option ReviewDecision × MemoryStorage
record_review candidate_id decision s =
    review_found decision s (get_assurance_candidate candidate_id s)

-- `d.conditions.get("evidence_level")` is empty, or is the level of the candidate
abbrev pub is_text : String → Option Value → Bool
is_text s (some (text t)) = t == s
is_text s _ = false

unfoldable pub level_matches : PromotionDelegation → AssuranceCandidate → Bool
unfolding field? truthy
level_matches d candidate =
    not (truthy_or_false (field? "evidence_level" d.conditions))
    || is_text candidate.evidence_level (field? "evidence_level" d.conditions)

unfoldable pub scope_matches : PromotionDelegation → AssuranceCandidate → Bool
scope_matches d candidate = not (nonblank d.scope) || d.scope == candidate.candidate_type

unfoldable pub delegation_applies : AssuranceCandidate → PromotionDelegation → Bool
unfolding level_matches scope_matches
delegation_applies candidate d =
    d.active
    && (d.rule_type == "deterministic" && (scope_matches d candidate && level_matches d candidate))

unfoldable pub check_delegation :
    AssuranceCandidate → String → MemoryStorage → Option PromotionDelegation
unfolding delegation_applies next
check_delegation candidate org_id s =
    next (delegation_applies candidate) (list_promotion_delegations org_id s)
