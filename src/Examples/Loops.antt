-- ===== src/Examples/Loops.antt =====
-- Labels and tests of fixes on the promoted candidate's record.
use notary_platform.Prelude.{
  ◌≡◌, refl, String, none, some, false, [], ◌∷◌, show, elem, any, keep, sort_by,
}
use notary_platform.Dict.{get, values}
use notary_platform.Value.{end}
use notary_platform.Protocol.Digest.{Outcome, value, raised}
use notary_platform.Examples.{clock, candidate}
use notary_platform.Examples.Promotions.{texts, storage, first, first_answered}
use notary_platform.Replay.Cassette.{Ops}
use notary_platform.Replay.Snapshot.{Mutation, done, run_mutation}
use notary_platform.Services.Replayability.{
  unknown, api_response, decision, AiExecutionEvent, EventKind, has_cassette, has_decision,
}
use notary_platform.Services.Labels.{LabelRequest, ProofStorage, stored_vr, create_label}
use notary_platform.Services.Labels.Suggested.{Trusted, create_label_suggested}
use notary_platform.Services.Mutations.{run_mutation_test}
use notary_platform.Services.Mutations.Kept.{Traced, run_mutation_test-Traced, unverified_kept}
use notary_platform.Services.Mutations.Levels.{Proven}
use notary_platform.Services.Mutations.Chain.{proof_chain}
use notary_platform.Services.Replays.{Execution, run_replay}
use notary_platform.Services.Replays.Stored.{Recorded, run_replay-Recorded}
use notary_platform.Storage.{
  get_assurance_candidate, get_decision_evidence_record, get_sweep_run, get_sweep_definition,
  get_resource, owned_by, list_review_decisions,
}
use notary_platform.Sweep.Bridge.{
  check_eligibility, all_failures, supporting_resource_ids, resolve_authority, active_reviews,
  scoped_reviews, authority_of_reviews, is_superseded, period_is_active, latest_from, der_failures,
  run_failures, definition_failures, level_failures, resource_failures, each_resource_failures,
  resource_failure, each_binding_failures, binding_failure, unique_from,
}
use notary_platform.Sweep.Promotion.{
  BridgedRecord, LinkedRun, LinkedTest, linked_runs, list_vrs_by_bridge_key,
}
use notary_platform.Sweep.Promotion.Bundle.{bridge_key_of}
use notary_platform.Sweep.Promotion.Promote.{promote, promote_new}

-- signatures that are the texts themselves
abbrev ops : Ops
ops = record { upper = λ t. t; sha256 = λ t. t; str = λ v. "v" }

-- the engine on an empty snapshot, with an agent that denies and a fixed one that approves
abbrev engine : String → Outcome Mutation
engine expected = value (run_mutation ops [] (done (some "deny")) (done (some "approve")) expected)

abbrev reproduced : LinkedRun
reproduced = record {
  id = "rr-1";
  org_id = "org-1";
  verification_record_id = first.0.verification_record_id;
  incident_id = "";
  status = "replayed";
  replay_method = "cassette";
  original_decision = "deny";
  replayed_decision = "deny";
  missing_calls = [];
  known_limitations = [];
  evidence_refs = [];
}

abbrev replayed_storage : ProofStorage
replayed_storage = record {
  bridge = record first.1 { replay_runs = ("rr-1", reproduced) ∷ [] };
  label_records = [];
}

run_mutation_test-Traced_example : Traced replayed_storage (
    run_mutation_test texts engine first.0.verification_record_id "org-1" end "approve"
      replayed_storage)
run_mutation_test-Traced_example =
    run_mutation_test-Traced texts engine first.0.verification_record_id "org-1" end "approve"
      replayed_storage

abbrev runner_said : Execution
runner_said = record { decision = "deny"; status = "replayed" }

run_replay-Recorded_example :
    Recorded first.1 (
      run_replay texts
        (some runner_said)
        (raised "")
        first.0.verification_record_id
        "org-1"
        first.1)
run_replay-Recorded_example =
    run_replay-Recorded texts (some runner_said) (raised "") first.0.verification_record_id "org-1"
      first.1

proof_chain_example : Proven "ac-1" (
    run_mutation_test texts engine first.0.verification_record_id "org-1" end "approve" (record {
      bridge =
          (run_replay texts
            (some runner_said)
            (raised "")
            first.0.verification_record_id
            "org-1"
            first.1).1;
      label_records = [];
    }))
unfolding promote promote_new check_eligibility all_failures get_assurance_candidate get
    get_decision_evidence_record get_sweep_run get_sweep_definition get_resource owned_by
    der_failures run_failures definition_failures level_failures resource_failures
    each_resource_failures resource_failure each_binding_failures binding_failure unique_from
    supporting_resource_ids resolve_authority active_reviews scoped_reviews authority_of_reviews
    is_superseded period_is_active latest_from keep any list_review_decisions values sort_by elem
    bridge_key_of list_vrs_by_bridge_key linked_runs run_mutation
proof_chain_example =
    proof_chain clock texts texts texts "ac-1" "org-1" storage first.0 first.1 candidate []
      runner_said (raised "") engine
      (run_mutation ops [] (done (some "deny")) (done (some "approve")) "approve") end "approve"
      first_answered refl refl refl refl refl refl refl refl refl

-- an agent that the fix does not change
abbrev unfixed : String → Outcome Mutation
unfixed expected = value (run_mutation ops [] (done (some "deny")) (done (some "deny")) expected)

abbrev no_test : LinkedTest
no_test = record {
  id = "";
  org_id = "";
  verification_record_id = "";
  incident_id = "";
  replay_run_id = "";
  fix_config = end;
  fix_agent_id = "";
  expected_outcome = "";
  label_id = "";
  original_decision = "";
  mutated_decision = "";
  decision_changed = false;
  verdict = "";
  replay_method = "";
  known_limitations = [];
  evidence_refs = [];
}

abbrev tested_by : Outcome LinkedTest × ProofStorage → LinkedTest × ProofStorage
tested_by (value test, s) = (test, s)
tested_by (raised message, s) = (no_test, s)

abbrev untested : LinkedTest × ProofStorage
untested = tested_by (
    run_mutation_test texts unfixed first.0.verification_record_id "org-1" end "approve"
      replayed_storage)

unverified_kept_example : untested.1.bridge.sweep ≡ first.1.sweep
unfolding promote promote_new check_eligibility all_failures get_assurance_candidate get
    get_decision_evidence_record get_sweep_run get_sweep_definition get_resource owned_by
    der_failures run_failures definition_failures level_failures resource_failures
    each_resource_failures resource_failure each_binding_failures binding_failure unique_from
    supporting_resource_ids resolve_authority active_reviews scoped_reviews authority_of_reviews
    is_superseded period_is_active latest_from keep any list_review_decisions values sort_by elem
    bridge_key_of list_vrs_by_bridge_key linked_runs run_mutation run_mutation_test stored_vr
unverified_kept_example =
    unverified_kept texts unfixed first.0.verification_record_id "org-1" end "approve"
      replayed_storage untested.0 untested.1 refl refl

-- a record with a recorded response and a decision, and no label
abbrev event_of : EventKind → AiExecutionEvent
event_of kind = record {
  kind = kind;
  payload = record { temperature = none; seed = none };
  metadata = record { temperature = none; seed = none };
}

abbrev unlabelled : BridgedRecord
unlabelled = record {
  assessed = record {
    id = "vr-1";
    events = event_of api_response ∷ event_of decision ∷ [];
    replayability = unknown;
    current_label_id = "";
    replayability_score = 0;
    non_deterministic_flags = [];
    defensibility_summary = "";
  };
  org_id = "org-1";
  environment_id = "env-1";
  source_system_id = "sys-1";
  source_record_ref = "ref-1";
  agent_id = "agent-1";
  business_function = "lending";
  decision_text = "deny";
  root_hash = "00";
  expected_outcome = "";
  label_source = "";
  promoted_to_incident = "";
  bridge_key = "";
  processing_path = "dep_ingress";
  replayability_reason = "";
  missing_prerequisites = [];
  computed_replayability = unknown;
  is_demo = false;
  created_at = "t0";
}

abbrev suggestion : LabelRequest
suggestion = record {
  expected_outcome = "approve";
  reviewer = "";
  role = "";
  message = "";
  suggested_by = "model-1";
}

abbrev unlabelled_storage : ProofStorage
unlabelled_storage = record {
  bridge = record storage { vrs = ("vr-1", unlabelled) ∷ [] };
  label_records = [];
}

create_label_suggested_example :
    Trusted "label-1" "vr-1"
      (create_label show "label-1" "vr-1" "org-1" suggestion unlabelled_storage).1
unfolding stored_vr get has_cassette has_decision any
create_label_suggested_example =
    create_label_suggested show "label-1" "vr-1" "org-1" suggestion unlabelled_storage unlabelled
      refl refl refl refl refl refl refl
