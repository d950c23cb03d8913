-- ===== src/Services/Mutations.antt =====
-- `MutationService.run_mutation` of src/notary_platform/services/services.py: a test of a fix, its
-- traces on the incident, and the evidence level that a verified fix gives to a promoted candidate.
-- `engine` is `run_mutation` of replay_engine/mutation.py on the record's snapshot with the agents
-- chosen for it, given the expected outcome. The theorems are in the modules below.
pub mod Levels
pub mod Kept
pub mod Loop
pub mod Chain
use notary_platform.Prelude.{
  String, Bool, true, false, not, ◌&&◌, ◌==◌, Option, none, some, List, [], ◌∷◌, ◌++◌,
  if◌then◌else◌, nonblank, last, ◌<>◌,
}
use notary_platform.Dict.{get, put, or_else}
use notary_platform.Value.{Fields}
use notary_platform.Protocol.Digest.{Outcome, value, raised}
use notary_platform.Records.Candidate.{AssuranceCandidate}
use notary_platform.Records.Evidence.{DecisionEvidenceRecord}
use notary_platform.Storage.{
  MemoryStorage, get_assurance_candidate, update_assurance_candidate, get_decision_evidence_record,
  create_decision_evidence_record,
}
use notary_platform.Replay.Snapshot.{Mutation}
use notary_platform.Services.Replayability.{KnownLimitation, limitation}
use notary_platform.Services.Labels.{LabelRecord, ProofStorage, stored_vr, stored_label}
use notary_platform.Sweep.Sufficiency.{recalculate_after_verification}
use notary_platform.Sweep.Promotion.{
  BridgedRecord, BridgeLineage, Incident, MutationResult, LinkedRun, LinkedTest, BridgeStorage,
  BridgeTexts, of_test, get_incident, update_incident, create_evidence_artifact, linked_runs,
}
use notary_platform.Sweep.Promotion.Bundle.{bridge_key_of}
use notary_platform.Sweep.Promotion.Incidents.{custody}

unfoldable pub create_mutation_test : LinkedTest → BridgeStorage → BridgeStorage
unfolding put
create_mutation_test test s = record s { mutation_tests = put test.id test s.mutation_tests }

abbrev pub label_for : BridgedRecord → ProofStorage → Option LabelRecord
label_for vr s =
    if nonblank vr.assessed.current_label_id
    then stored_label vr.assessed.current_label_id s
    else none

-- expected_correct_behavior or the label's outcome
abbrev pub expected_for : String → Option LabelRecord → String
expected_for given none = given
expected_for given (some label) = if nonblank given then given else label.expected_outcome

abbrev pub new_test :
    BridgeTexts → BridgedRecord → LinkedRun → Fields → (expected : String) → LinkedTest
new_test t vr run fix_config expected = record {
  id = "mt-" <> t.drawn "test";
  org_id = vr.org_id;
  verification_record_id = vr.assessed.id;
  incident_id = vr.promoted_to_incident;
  replay_run_id = run.id;
  fix_config = fix_config;
  fix_agent_id = vr.agent_id;
  expected_outcome = expected;
  label_id = vr.assessed.current_label_id;
  original_decision = run.original_decision;
  mutated_decision = "";
  decision_changed = false;
  verdict = "not_started";
  replay_method = "cassette";
  known_limitations = [];
  evidence_refs = [];
}

abbrev pub unchanged_decision : KnownLimitation
unchanged_decision =
    limitation "fix_did_not_change_decision" "NON_DETERMINISTIC_CORE"
      "Mutation replay produced the expected outcome but did not change the reproduced original decision; this is not accepted as remediation."
      "mutation_engine" true ""

-- the test with what the engine answered, or with the exception it raised
abbrev pub tested : LinkedTest → Outcome Mutation → LinkedTest
tested test (value m) = record test {
  mutated_decision = or_else m.mutated_decision "";
  decision_changed = m.decision_changed;
  verdict = if m.mitigated then "verified" else "not_verified";
  known_limitations = if not m.decision_changed then unchanged_decision ∷ [] else [];
}
tested test (raised message) = record test {
  verdict = "error";
  known_limitations =
      limitation "mutation_error" "NON_DETERMINISTIC_CORE" message "mutation_engine" true "" ∷ [];
}

-- the lineage of the incident is that of the candidate, its record and the verification record
abbrev pub is_lineage_of :
    BridgeTexts
    → String
    → BridgedRecord
    → BridgeLineage
    → AssuranceCandidate
    → DecisionEvidenceRecord
    → Bool
is_lineage_of t org_id vr lineage c der =
    c.org_id == org_id
    && der.org_id == org_id
    && (c.environment_id == der.environment_id && der.environment_id == vr.environment_id)
    && lineage.candidate_id == c.id
    && lineage.der_id == c.der_id
    && vr.bridge_key == bridge_key_of t c

abbrev pub with_level :
    String → AssuranceCandidate → DecisionEvidenceRecord → MemoryStorage → MemoryStorage
with_level level c der s =
    create_decision_evidence_record (record der { evidence_level = level })
      (update_assurance_candidate (record c { evidence_level = level }) s)

abbrev pub raise_found :
    BridgeTexts
    → String
    → BridgedRecord
    → BridgeLineage
    → MemoryStorage
    → Option AssuranceCandidate
    → Option DecisionEvidenceRecord
    → MemoryStorage
raise_found t org_id vr lineage s none der = s
raise_found t org_id vr lineage s (some c) none = s
raise_found t org_id vr lineage s (some c) (some der) =
    if is_lineage_of t org_id vr lineage c der
    then with_level (recalculate_after_verification c.evidence_level true true) c der s
    else s

-- an incident without lineage names no candidate
abbrev pub raise_levels :
    BridgeTexts → String → BridgedRecord → Option BridgeLineage → MemoryStorage → MemoryStorage
raise_levels t org_id vr none s = s
raise_levels t org_id vr (some lineage) s =
    raise_found t org_id vr lineage s (get_assurance_candidate lineage.candidate_id s)
      (get_decision_evidence_record lineage.der_id s)

abbrev pub mutated_incident : BridgeTexts → LinkedTest → Fields → Incident → Incident
mutated_incident t test fix_config incident = record incident {
  mutation_result = some (record {
    original_decision = test.original_decision;
    mutated_decision = test.mutated_decision;
    decision_changed = test.decision_changed;
    mitigated = test.verdict == "verified";
    fix_config = fix_config;
    expected_correct_behavior = test.expected_outcome;
    mutation_test_id = test.id;
  });
  status = if test.verdict == "verified" then "mitigated" else incident.status;
  custody =
      incident.custody
      ++ (custody t "mutation_tested" "mutation_service" ("test=" <> test.id) ∷ []);
}

abbrev pub on_incident :
    BridgeTexts
    → String
    → BridgedRecord
    → LinkedTest
    → Fields
    → BridgeStorage
    → Option Incident
    → BridgeStorage
on_incident t org_id vr test fix_config s none = s
on_incident t org_id vr test fix_config s (some incident) =
    let s₁ = update_incident (mutated_incident t test fix_config incident) s in
    if test.verdict == "verified"
    then record s₁ { sweep = raise_levels t org_id vr incident.lineage s₁.sweep }
    else s₁

-- the artifact holds the test without its reference
abbrev pub store_test : BridgeTexts → BridgedRecord → LinkedTest → BridgeStorage → BridgeStorage
store_test t vr test s =
    create_mutation_test (record test { evidence_refs = ("ev-" <> t.drawn "artifact") ∷ [] })
      (create_evidence_artifact
        (record {
          id = "ev-" <> t.drawn "artifact";
          org_id = vr.org_id;
          verification_record_id = vr.assessed.id;
          kind = "mutation_result";
          payload = of_test test;
        })
        s)

abbrev pub finish_test :
    BridgeTexts → String → BridgedRecord → LinkedTest → Fields → BridgeStorage → BridgeStorage
finish_test t org_id vr test fix_config s =
    if nonblank vr.promoted_to_incident
    then on_incident t org_id vr test fix_config s (get_incident vr.promoted_to_incident s)
    else s

abbrev pub test_run :
    BridgeTexts
    → (String → Outcome Mutation)
    → String
    → BridgedRecord
    → Fields
    → String
    → ProofStorage
    → Option LinkedRun
    → Outcome LinkedTest × ProofStorage
test_run t engine org_id vr fix_config given s none =
    (raised "Mutation requires a reproduced replay run", s)
test_run t engine org_id vr fix_config given s (some run) =
    let expected = expected_for given (label_for vr s) in
    let test = tested (new_test t vr run fix_config expected) (engine expected) in
    let shown = record test { evidence_refs = ("ev-" <> t.drawn "artifact") ∷ [] } in
    if not (run.status == "replayed")
    then (raised ("Replay not successful: " <> run.status), s)
    else if not (nonblank expected)
    then (raised "Expected outcome is required for mutation test", s)
    else (
      value shown,
      record s {
        bridge = finish_test t org_id vr shown fix_config (store_test t vr test s.bridge);
      },
    )

abbrev pub test_found :
    BridgeTexts
    → (String → Outcome Mutation)
    → (vr_id org_id : String) → Fields
    → String
    → ProofStorage
    → Option BridgedRecord
    → Outcome LinkedTest × ProofStorage
test_found t engine vr_id org_id fix_config given s none =
    (raised "Verification Record not found", s)
test_found t engine vr_id org_id fix_config given s (some vr) =
    if not (vr.org_id == org_id)
    then (raised "Verification Record not found", s)
    else test_run t engine org_id vr fix_config given s (last (linked_runs vr_id s.bridge))

unfoldable pub run_mutation_test :
    BridgeTexts
    → (engine : String → Outcome Mutation) → (vr_id org_id : String) → Fields
    → (expected_correct_behavior : String) → ProofStorage
    → Outcome LinkedTest × ProofStorage
unfolding stored_vr stored_label linked_runs get_incident update_incident create_mutation_test
    create_evidence_artifact get_assurance_candidate update_assurance_candidate
    get_decision_evidence_record create_decision_evidence_record recalculate_after_verification
    bridge_key_of
run_mutation_test t engine vr_id org_id fix_config given s =
    test_found t engine vr_id org_id fix_config given s (stored_vr vr_id s)
