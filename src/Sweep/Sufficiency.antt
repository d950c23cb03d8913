-- ===== src/Sweep/Sufficiency.antt =====
-- `EvidenceSufficiencyService` of src/notary_platform/sweep/sufficiency.py: the evidence level
-- E0 to E4 of a record in its context. The theorems are in the modules below.
pub mod Levels
pub mod Report
use notary_platform.Prelude.{
  String, Bool, not, ◌&&◌, ◌||◌, ◌==◌, List, [], ◌∷◌, ◌++◌, leb, if◌then◌else◌, nonblank, nonempty,
}
use notary_platform.Sweep.Evidence.{FrozenDecisionEvidenceRecord, ResolvedContext, reason}

pub record SufficiencyResult : Type 0 where
  pub current_level : String
  pub satisfied : List String
  pub failed : List String
  pub next_level_requirements : List String

-- E0: at least one attributable observation
pub e0_ok : FrozenDecisionEvidenceRecord → Bool
e0_ok r = nonempty r.source_resource_ids || nonblank r.decision_identity

-- E1: an applicable context binding, and no blocking identity ambiguity
pub e1_ok : FrozenDecisionEvidenceRecord → ResolvedContext → Bool
e1_ok r c = e0_ok r && (nonempty r.context_binding_ids && not (nonempty c.conflicted_bindings))

pub has_context : ResolvedContext → Bool
has_context c = reason "authoritative_context" c || reason "corroborated_context" c

-- E2: authoritative or independently corroborated context
pub e2_ok : FrozenDecisionEvidenceRecord → ResolvedContext → Bool
e2_ok r c = e1_ok r c && has_context c

abbrev pub has_integrity : FrozenDecisionEvidenceRecord → Bool
has_integrity r = leb 1 r.version

abbrev pub has_replay_path : FrozenDecisionEvidenceRecord → Bool → Bool
has_replay_path r has_replay_result = nonblank r.resolution_trace_id || has_replay_result

-- E3: integrity-verified sealed evidence with a replay path
pub e3_ok : FrozenDecisionEvidenceRecord → ResolvedContext → Bool → Bool
e3_ok r c has_replay_result = e2_ok r c && (has_integrity r && has_replay_path r has_replay_result)

-- E4: a successful original replay and a verified mutation
pub e4_ok : FrozenDecisionEvidenceRecord → ResolvedContext → Bool → Bool → Bool
e4_ok r c has_replay_result has_verified_mutation =
    e3_ok r c has_replay_result && (has_replay_result && has_verified_mutation)

pub determine_level : Bool → Bool → Bool → Bool → Bool → String × List String
determine_level e0 e1 e2 e3 e4 =
    if e4
    then ("E4", [])
    else if e3
    then (
      "E3",
      "Run successful original replay" ∷ "Verify before/after fix result"
          ∷ "Retain evidence references" ∷ [],
    )
    else if e2
    then (
      "E2",
      "Seal evidence with integrity verification" ∷ "Ensure available replay path exists" ∷ [],
    )
    else if e1
    then ("E1", "Provide authoritative or corroborated context" ∷ [])
    else if e0
    then (
      "E0",
      "Provide at least one applicable Context Binding"
          ∷ "Resolve identity ambiguity (no conflicted bindings)" ∷ [],
    )
    else ("", "Provide at least one attributable Observation" ∷ [])

abbrev pub line_if : Bool → String → List String
line_if b line = if b then line ∷ [] else []

-- the `satisfied` lines, in the order in which they are appended
pub satisfied_lines : Bool → Bool → Bool → Bool → Bool → List String
satisfied_lines e0 e1 e2 e3 e4 =
    line_if e0 "E0: attributable observation present"
    ++ (line_if e1 "E1: context binding applied without identity ambiguity"
        ++ (line_if e2 "E2: authoritative or corroborated context present"
            ++ (line_if e3 "E3: integrity-verified sealed evidence with replay path"
                ++ line_if e4 "E4: successful replay with verified before/after fix")))

-- the `failed` lines: a level that is not reached names the conditions of its own that fail
pub failed_lines :
    FrozenDecisionEvidenceRecord
    → ResolvedContext
    → (has_replay_result has_verified_mutation : Bool) → List String
failed_lines r c replayed verified =
    line_if (not (e0_ok r)) "E0: no attributable observation"
    ++ (line_if (not (e1_ok r c) && not (nonempty r.context_binding_ids))
          "E1: no applicable context binding"
        ++ (line_if (not (e1_ok r c) && nonempty c.conflicted_bindings)
              "E1: blocking identity ambiguity (conflicted bindings)"
            ++ (line_if (not (e2_ok r c) && not (has_context c))
                  "E2: no authoritative or corroborated context"
                ++ (line_if (not (e3_ok r c replayed) && not (has_integrity r))
                      "E3: evidence not integrity-verified (version < 1)"
                    ++ (line_if (not (e3_ok r c replayed) && not (has_replay_path r replayed))
                          "E3: no available replay path"
                        ++ (line_if (not (e4_ok r c replayed verified) && not replayed)
                              "E4: no successful original replay"
                            ++ line_if (not (e4_ok r c replayed verified) && not verified)
                                "E4: no verified before/after fix result"))))))

pub calculate :
    FrozenDecisionEvidenceRecord
    → ResolvedContext
    → (has_replay_result has_verified_mutation : Bool) → SufficiencyResult
calculate r c replayed verified =
    let (level, requirements) =
      determine_level (e0_ok r) (e1_ok r c) (e2_ok r c) (e3_ok r c replayed)
        (e4_ok r c replayed verified) in
    record {
      current_level = level;
      satisfied =
          satisfied_lines (e0_ok r) (e1_ok r c) (e2_ok r c) (e3_ok r c replayed)
            (e4_ok r c replayed verified);
      failed = failed_lines r c replayed verified;
      next_level_requirements = requirements;
    }

-- `"complete"` of `format_report`
pub is_complete : SufficiencyResult → Bool
is_complete result = result.current_level == "E4"

unfoldable pub recalculate_after_verification :
    String → (has_replay_result has_verified_mutation : Bool) → String
recalculate_after_verification current_level replayed verified =
    if (current_level == "E3" || current_level == "E4") && (replayed && verified)
    then "E4"
    else current_level
