-- ===== src/Examples/Bridges.antt =====
-- The bridge and the review service on the organization's data.
use notary_platform.Prelude.{
  ◌≡◌, ◌==◌, refl, true, some, is_some, nonempty, keep, next, elem, any, sort_by, [], ◌∷◌, All,
}
use notary_platform.Dict.{get, values}
use notary_platform.Value.{field?, truthy}
use notary_platform.Examples.{clock, unreviewed, reviewed, candidate, approval}
use notary_platform.Storage.{
  get_assurance_candidate, get_decision_evidence_record, get_sweep_run, get_sweep_definition,
  get_resource, owned_by, list_review_decisions, list_promotion_delegations,
}
use notary_platform.Sweep.Candidates
use notary_platform.Sweep.Candidates.{lifecycle_map, record_review, level_matches, scope_matches}
use notary_platform.Sweep.Candidates.Review.{record_review_accepted}
use notary_platform.Sweep.Bridge.{
  check_eligibility, check_delegation, all_failures, supporting_resource_ids, resolve_authority,
  active_reviews, scoped_reviews, authority_of_reviews, is_superseded, period_is_active,
  latest_from, delegation_grants, der_failures, run_failures, definition_failures, level_failures,
  resource_failures, each_resource_failures, resource_failure, each_binding_failures,
  binding_failure, unique_from, lookup_if,
}
use notary_platform.Sweep.Bridge.Lineage.{eligible_lem, HasRecord, HasRun, HasResource, record_of}
use notary_platform.Sweep.Bridge.Scope.{foreign_candidate_hidden, check_delegation_weaker}

eligible_lem_example :
    ((candidate.org_id == "org-1") ≡ true)
    × (HasRecord candidate "org-1" (record_of candidate reviewed)
        × (HasRun candidate "org-1"
              (lookup_if candidate.sweep_run_id (get_sweep_run candidate.sweep_run_id reviewed))
            × ((elem candidate.evidence_level ("E3" ∷ "E4" ∷ []) ≡ true)
                × (((nonempty (supporting_resource_ids candidate (record_of candidate reviewed))
                        ≡ true)
                      × All
                          (λ id. HasResource candidate (get_resource id "org-1" reviewed))
                          (supporting_resource_ids candidate (record_of candidate reviewed)))
                    × (is_some (resolve_authority clock candidate "org-1" reviewed) ≡ true)))))
unfolding check_eligibility all_failures get_assurance_candidate get get_decision_evidence_record
    get_sweep_run get_sweep_definition get_resource owned_by der_failures run_failures
    definition_failures level_failures resource_failures each_resource_failures resource_failure
    each_binding_failures binding_failure unique_from supporting_resource_ids resolve_authority
    active_reviews scoped_reviews authority_of_reviews is_superseded period_is_active latest_from
    keep any list_review_decisions values sort_by elem
eligible_lem_example = eligible_lem clock "ac-1" "org-1" reviewed candidate refl refl

foreign_candidate_hidden_example :
    check_eligibility clock "ac-1" "org-2" reviewed
    ≡ check_eligibility clock "ac-9" "org-2" reviewed
unfolding get_assurance_candidate get
foreign_candidate_hidden_example =
    foreign_candidate_hidden clock "ac-1" "ac-9" "org-2" reviewed candidate refl refl refl

check_delegation_weaker_example :
    is_some (Candidates.check_delegation candidate "org-1" unreviewed) ≡ true
unfolding check_delegation delegation_grants list_promotion_delegations values keep next
    period_is_active scope_matches level_matches field? truthy any
check_delegation_weaker_example = check_delegation_weaker clock candidate "org-1" unreviewed refl

record_review_accepted_example :
    ((record_review "ac-1" approval unreviewed).0 ≡ some approval)
    × (get_assurance_candidate "ac-1" (record_review "ac-1" approval unreviewed).1
        ≡ some (record candidate { lifecycle_state = "approved_incident" }))
unfolding get_assurance_candidate get elem
record_review_accepted_example =
    record_review_accepted "ac-1" approval candidate unreviewed refl "approved_incident" refl refl
      refl
