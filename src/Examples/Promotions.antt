-- ===== src/Examples/Promotions.antt =====
-- Promoting the organization's reviewed candidate.
use notary_platform.Prelude.{◌≡◌, refl, Option, some, [], show, elem, any, keep, sort_by, false}
use notary_platform.Dict.{get, values}
use notary_platform.Examples.{clock, reviewed, approval}
use notary_platform.Storage.{
  get_assurance_candidate, get_decision_evidence_record, get_sweep_run, get_sweep_definition,
  get_resource, owned_by, list_review_decisions,
}
use notary_platform.Sweep.Bridge.{
  check_eligibility, all_failures, supporting_resource_ids, resolve_authority, active_reviews,
  scoped_reviews, authority_of_reviews, is_superseded, period_is_active, latest_from, der_failures,
  run_failures, definition_failures, level_failures, resource_failures, each_resource_failures,
  resource_failure, each_binding_failures, binding_failure, unique_from, review,
}
use notary_platform.Sweep.Promotion.{
  BridgeStorage, BridgeTexts, list_vrs_by_bridge_key, get_incident,
}
use notary_platform.Sweep.Promotion.Bundle.{bridge_key_of}
use notary_platform.Sweep.Promotion.Promote.{Promotion, Promoted, promoted, promote, promote_new}
use notary_platform.Sweep.Promotion.Again.{promote_again}
use notary_platform.Sweep.Promotion.Sealed.{promote_sealed, SealedFor, NamedBy}
use notary_platform.Sweep.Promotion.Guarded.{promote-Guarded, Guarded}

abbrev pub texts : BridgeTexts
texts = record {
  sha256 = λ s. s;
  digest_manifest = λ m. m.bridge_key;
  digest_fields = λ d. "fields";
  lower = λ s. s;
  dashed = λ s. s;
  percent = show;
  drawn = λ s. s;
  now = "2026-01-02T00:00:00+00:00";
}

abbrev pub storage : BridgeStorage
storage = record {
  sweep = reviewed;
  vrs = [];
  incidents = [];
  snapshots = [];
  evidence = [];
  evidence_artifacts = [];
  replay_runs = [];
  mutation_tests = [];
}

abbrev unpromoted : Promoted
unpromoted = record {
  bridge_key = "";
  verification_record_id = "";
  is_new_record = false;
  evidence_bundle_ref = "";
  incident_ref = "";
  replay_state = "";
  replayability_reason = "";
  missing_prerequisites = [];
  candidate_id = "";
  der_id = "";
  sweep_run_id = "";
  authority = review approval;
}

abbrev answered : Option (Promotion × BridgeStorage) → Promoted × BridgeStorage
answered (some (promoted p, s)) = (p, s)
answered _ = (unpromoted, storage)

abbrev pub first : Promoted × BridgeStorage
first = answered (promote clock texts "ac-1" "org-1" storage)

pub first_answered : promote clock texts "ac-1" "org-1" storage ≡ some (promoted first.0, first.1)
unfolding promote promote_new check_eligibility all_failures get_assurance_candidate get
    get_decision_evidence_record get_sweep_run get_sweep_definition get_resource owned_by
    der_failures run_failures definition_failures level_failures resource_failures
    each_resource_failures resource_failure each_binding_failures binding_failure unique_from
    supporting_resource_ids resolve_authority active_reviews scoped_reviews authority_of_reviews
    is_superseded period_is_active latest_from keep any list_review_decisions values sort_by elem
    bridge_key_of list_vrs_by_bridge_key
first_answered = refl

promote_again_example :
    promote clock (record texts { now = "2026-01-03T00:00:00+00:00" }) "ac-1" "org-1" first.1
    ≡ some (promoted (record first.0 { is_new_record = false }), first.1)
promote_again_example =
    promote_again clock texts (record texts { now = "2026-01-03T00:00:00+00:00" }) "ac-1" "org-1"
      storage first.0 first.1 refl first_answered

promote_sealed_example :
    SealedFor texts reviewed first.0 (get first.0.evidence_bundle_ref first.1.evidence)
    × NamedBy "org-1" first.0 (get_incident first.0.incident_ref first.1)
unfolding promote promote_new check_eligibility all_failures get_assurance_candidate get
    get_decision_evidence_record get_sweep_run get_sweep_definition get_resource owned_by
    der_failures run_failures definition_failures level_failures resource_failures
    each_resource_failures resource_failure each_binding_failures binding_failure unique_from
    supporting_resource_ids resolve_authority active_reviews scoped_reviews authority_of_reviews
    is_superseded period_is_active latest_from keep any list_review_decisions values sort_by elem
    bridge_key_of list_vrs_by_bridge_key
promote_sealed_example =
    promote_sealed clock texts "ac-1" "org-1" storage first.0 first.1 first_answered refl

promote-Guarded_example :
    Guarded
      (check_eligibility clock "ac-1" "org-1" reviewed).authority
      storage
      (promoted first.0, first.1)
promote-Guarded_example =
    promote-Guarded clock texts "ac-1" "org-1" storage (promoted first.0, first.1) first_answered
