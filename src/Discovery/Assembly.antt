-- ===== src/Discovery/Assembly.antt =====
-- `DecisionEvidenceRecordService` of src/notary_platform/discovery/evidence_records.py. A result of
-- `none` is an exception of the context resolver. The theorems are in the module below.
pub mod Agreement
use notary_platform.Prelude.{
  ℕ, suc, String, Bool, not, ◌||◌, ◌==◌, Option, none, some, List, [], ◌∷◌, ◌++◌, if◌then◌else◌,
  nonblank, elem,
}
use notary_platform.Dict.{Dict, or_else}
use notary_platform.Value.{Value, Draw, ◌>>=◌}
use notary_platform.Records.Evidence
use notary_platform.Records.Evidence.{DecisionEvidenceRecord}
use notary_platform.Records.Trace
use notary_platform.Records.Trace.{ResolutionTrace}
use notary_platform.Records.Resource.{DecisionEvidenceResource}
use notary_platform.Records.Link.{LinkAssertion}
use notary_platform.Storage.{
  MemoryStorage, get_resource, create_decision_evidence_record, get_decision_evidence_record,
  get_resolution_trace, list_decision_evidence_records,
}
use notary_platform.Discovery.Identity
use notary_platform.Discovery.Identity.{Texts}
use notary_platform.Discovery.Context
use notary_platform.Discovery.Context.{Times, given_or, with_trace}
use notary_platform.Prelude.{map}

-- one more member of a set of texts
abbrev pub add_to_set : String → List String → List String
add_to_set e set = if elem e set then set else set ++ (e ∷ [])

abbrev pub add_environment : Option DecisionEvidenceResource → List String → List String
add_environment none set = set
add_environment (some r) set =
    if nonblank r.environment_id then add_to_set r.environment_id set else set

-- the set `environments` of `build`, from the resources that are there
unfoldable pub environments_of : String → MemoryStorage → List String → List String → List String
unfolding get_resource elem
environments_of org_id s [] set = set
environments_of org_id s (rid ∷ rest) set =
    environments_of org_id s rest (add_environment (get_resource rid org_id s) set)

-- next(iter(environments)) if len(environments) == 1 else ""
abbrev pub sole : List String → String
sole (e ∷ []) = e
sole _ = ""

-- the record that `build` creates
unfoldable pub assembled :
    Draw
    → (org_id : String) → List String
    → String × String × List LinkAssertion
    → MemoryStorage
    → DecisionEvidenceRecord
unfolding Evidence.post_init environments_of
assembled draw org_id resource_ids (identity, method, links) s =
    Evidence.post_init draw (record Evidence.blank {
      org_id = org_id;
      environment_id = sole (environments_of org_id s resource_ids []);
      decision_identity = identity;
      identity_method = method;
      source_resource_ids = resource_ids;
      link_assertion_ids = map (λ la. la.id) links;
    })

-- `final or created`
abbrev pub final_record :
    DecisionEvidenceRecord → MemoryStorage → DecisionEvidenceRecord × MemoryStorage
final_record created s = (or_else (get_decision_evidence_record created.id s) created, s)

abbrev pub build_stored :
    Times
    → (ℕ → Draw)
    → DecisionEvidenceRecord
    → String
    → Option String
    → MemoryStorage
    → Option (DecisionEvidenceRecord × MemoryStorage)
build_stored times draw der org_id decision_time s =
    if nonblank der.decision_identity
    then (do
      (trace, s') ←
          Context.resolve times (λ k. draw (suc k)) der org_id
            (some (given_or decision_time der.created_at)) none none s
      some (final_record (with_trace trace der) s'))
    else some (final_record der s)

-- `draw 0` is the record's, the others the context resolver's
unfoldable pub build :
    Texts
    → Times
    → (ℕ → Draw)
    → List String
    → String
    → Option String
    → Dict String
    → MemoryStorage
    → Option (DecisionEvidenceRecord × MemoryStorage)
unfolding assembled Identity.resolve Context.resolve create_decision_evidence_record
    get_decision_evidence_record
build texts times draw resource_ids org_id decision_time namespace_mappings s =
    let der =
      assembled (draw 0) org_id resource_ids
        (Identity.resolve texts resource_ids org_id namespace_mappings s) s in
    build_stored times draw der org_id decision_time (create_decision_evidence_record der s)

abbrev pub get_found : String → Option DecisionEvidenceRecord → Option DecisionEvidenceRecord
get_found org_id none = none
get_found org_id (some der) = if der.org_id == org_id then some der else none

-- `DecisionEvidenceRecordService.get`
unfoldable pub get_record : (der_id org_id : String) → MemoryStorage → Option DecisionEvidenceRecord
unfolding get_decision_evidence_record
get_record der_id org_id s = get_found org_id (get_decision_evidence_record der_id s)

unfoldable pub list_records : String → MemoryStorage → List DecisionEvidenceRecord
unfolding list_decision_evidence_records
list_records org_id s = list_decision_evidence_records org_id s

unfoldable pub get_trace_dict : (der_id org_id : String) → MemoryStorage → Option (Dict Value)
unfolding get_record get_resolution_trace Trace.to_dict
get_trace_dict der_id org_id s = do
  der ← get_record der_id org_id s
  trace ← get_resolution_trace der.resolution_trace_id s
  some (Trace.to_dict trace)
