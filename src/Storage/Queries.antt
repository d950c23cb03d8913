-- ===== src/Storage/Queries.antt =====
-- The listings with more than one condition, and the payloads.
use notary_platform.Prelude.{String, Option, List, ◌&&◌, ◌||◌, ◌==◌, keep, sort_by}
use notary_platform.Dict.{get, put, values}
use notary_platform.Value.{Fields}
use notary_platform.Records.Review.{ReviewDecision}
use notary_platform.Records.Suppression.{SuppressionRule}
use notary_platform.Records.Delegation.{PromotionDelegation}
use notary_platform.Records.Link.{LinkAssertion}
use notary_platform.Records.Binding.{ContextBinding}
use notary_platform.Records.Evidence.{DecisionEvidenceRecord}
use notary_platform.Storage.Collections.{MemoryStorage}

unfoldable pub list_review_decisions : String → MemoryStorage → List ReviewDecision
unfolding keep values sort_by
list_review_decisions candidate_id s =
    sort_by (λ d. d.created_at)
      (keep (λ d. d.candidate_id == candidate_id) (values s.review_decisions))

unfoldable pub list_suppression_rules : String → MemoryStorage → List SuppressionRule
unfolding keep values
list_suppression_rules org_id s =
    keep (λ r. r.org_id == org_id && r.active) (values s.suppression_rules)

unfoldable pub list_promotion_delegations : String → MemoryStorage → List PromotionDelegation
unfolding keep values
list_promotion_delegations org_id s =
    keep (λ d. d.org_id == org_id && d.active) (values s.promotion_delegations)

unfoldable pub list_link_assertions_for_resource :
    String → String → MemoryStorage → List LinkAssertion
unfolding keep values
list_link_assertions_for_resource resource_id org_id s =
    keep
      (λ la.
        la.org_id == org_id
        && (la.source_resource_id == resource_id || la.target_resource_id == resource_id))
      (values s.link_assertions)

unfoldable pub list_context_bindings_for_scope :
    String → String → String → MemoryStorage → List ContextBinding
unfolding keep values
list_context_bindings_for_scope org_id subject_scope subject_selector s =
    keep
      (λ cb.
        cb.org_id == org_id
        && cb.subject_scope == subject_scope
        && cb.subject_selector == subject_selector)
      (values s.context_bindings)

unfoldable pub list_decision_evidence_records_by_identity :
    String → String → MemoryStorage → List DecisionEvidenceRecord
unfolding keep values
list_decision_evidence_records_by_identity decision_identity org_id s =
    keep (λ d. d.org_id == org_id && d.decision_identity == decision_identity)
      (values s.decision_evidence_records)

unfoldable pub persist_payload : String → Fields → MemoryStorage → MemoryStorage
unfolding put
persist_payload payload_ref envelope s = record s { payloads = put payload_ref envelope s.payloads }

unfoldable pub get_payload : String → MemoryStorage → Option Fields
unfolding get
get_payload payload_ref s = get payload_ref s.payloads
