-- ===== src/Examples/Contexts.antt =====
-- The resolution of the context and of the identity of one record, with tables for the times and
-- texts that it has.
use notary_platform.Prelude.{
  String, show, ◌≡◌, refl, true, false, ◌==◌, Option, none, some, [], ◌∷◌, elem, if◌then◌else◌,
  keep,
}
use notary_platform.Dict.{get, put, values, or_else}
use notary_platform.Storage.{
  MemoryStorage, no_storage, list_context_bindings_for_scope, list_context_bindings,
  get_context_binding, get_payload, create_context_conflict, create_resolution_trace,
  create_decision_evidence_record, get_decision_evidence_record, get_resource, owned_by,
  list_link_assertions_for_resource, list_link_assertions,
  list_decision_evidence_records_by_identity, list_decision_evidence_records,
}
use notary_platform.Records.Binding
use notary_platform.Records.Binding.{ContextBinding}
use notary_platform.Records.Conflict
use notary_platform.Records.Trace
use notary_platform.Records.Trace.{ResolutionTrace}
use notary_platform.Records.Evidence
use notary_platform.Records.Evidence.{DecisionEvidenceRecord}
use notary_platform.Discovery.Identity
use notary_platform.Discovery.Identity.{
  Texts, has_record, try_exact_id, try_dep_relationship, try_namespace, composite_key,
  try_composite_key, try_confirmed_link_assertion, first_found,
}
use notary_platform.Discovery.Identity.Precedence.{resolve_looked_up}
use notary_platform.Discovery.Context.{
  Times, Instant, is_before, is_past, superseder_of, artifact_available, judge, put_reason, place,
  select, authority_rank, group_by_key, insert_by_rank, sort_by_rank, ties_of, conflict_between,
  rank_groups, trace_of, candidates_for, with_trace, finish, resolve,
}
use notary_platform.Discovery.Assembly.{build, assembled, environments_of}
use notary_platform.Discovery.Assembly.Agreement.{Agrees, build-Agrees, build-link_assertion_ids}
use notary_platform.Examples.{draws, evidence, supporting}

abbrev time_of : String → Option Instant
time_of t =
    if t == "t0"
    then some (record { has_zone = true; at = 10 })
    else if t == "t1"
    then some (record { has_zone = true; at = 20 })
    else none

abbrev times : Times
times = record { parse_iso = time_of; starts_with = λ t prefix. t == "dep://payload/res-1" }

abbrev binding : (id binding_type authority : String) → ContextBinding
binding id binding_type authority = record Binding.blank {
  id = id;
  org_id = "org-1";
  subject_scope = "loan-7";
  binding_type = binding_type;
  authority = authority;
  effective_from = "t0";
  effective_until = "t1";
  created_at = "t0";
}

-- a policy that one binding decides, and a rate that two bindings of equal authority dispute
abbrev stored : MemoryStorage
stored = record no_storage {
  context_bindings =
      ("cb-1", binding "cb-1" "policy" "inferred")
      ∷ ("cb-2", binding "cb-2" "policy" "customer_confirmed")
      ∷ ("cb-3", binding "cb-3" "rate" "inferred")
      ∷ ("cb-4", binding "cb-4" "rate" "inferred")
      ∷ [];
  resources = ("loan-7", record supporting { resource_id = "loan-7" }) ∷ [];
  decision_evidence_records = ("der-1", evidence) ∷ [];
}

abbrev resolution : ResolutionTrace × MemoryStorage
resolution =
    or_else (resolve times draws evidence "org-1" none none none stored) (Trace.blank, no_storage)

abbrev text_table : Texts
text_table = record { starts_with = λ t prefix. false; replace_first = λ t old new. t }

resolve_looked_up_example :
    has_record (Identity.resolve text_table ("loan-7" ∷ []) "org-1" [] stored).0 "org-1" stored
    ≡ true
unfolding Identity.resolve first_found try_exact_id has_record
    list_decision_evidence_records_by_identity list_decision_evidence_records try_dep_relationship
    try_namespace try_composite_key try_confirmed_link_assertion list_link_assertions_for_resource
    list_link_assertions get values keep
resolve_looked_up_example = resolve_looked_up text_table "org-1" [] stored ("loan-7" ∷ []) refl

abbrev built : DecisionEvidenceRecord × MemoryStorage
built =
    or_else (build text_table times draws ("loan-7" ∷ []) "org-1" (some "t0") [] stored)
      (Evidence.blank, no_storage)

build-Agrees_example : Agrees "org-1" built.0 built.1
unfolding build show assembled environments_of Evidence.post_init get_decision_evidence_record
    get_resource owned_by elem resolve select judge is_before is_past superseder_of
    artifact_available place put_reason finish rank_groups sort_by_rank insert_by_rank
    authority_rank ties_of conflict_between Conflict.post_init trace_of Trace.post_init with_trace
    group_by_key candidates_for list_context_bindings_for_scope list_context_bindings
    get_context_binding get_payload create_context_conflict create_resolution_trace
    create_decision_evidence_record get put values keep Identity.resolve first_found try_exact_id
    has_record list_decision_evidence_records_by_identity list_decision_evidence_records
    try_dep_relationship try_namespace try_composite_key try_confirmed_link_assertion
    list_link_assertions_for_resource list_link_assertions
build-Agrees_example =
    build-Agrees text_table times draws ("loan-7" ∷ []) "org-1" (some "t0") [] stored built.1
      built.0 refl refl

build-link_assertion_ids_example : built.0.link_assertion_ids ≡ []
unfolding build show assembled environments_of Evidence.post_init get_decision_evidence_record
    get_resource owned_by elem resolve select judge is_before is_past superseder_of
    artifact_available place put_reason finish rank_groups sort_by_rank insert_by_rank
    authority_rank ties_of conflict_between Conflict.post_init trace_of Trace.post_init with_trace
    group_by_key candidates_for list_context_bindings_for_scope list_context_bindings
    get_context_binding get_payload create_context_conflict create_resolution_trace
    create_decision_evidence_record get put values keep Identity.resolve first_found try_exact_id
    has_record list_decision_evidence_records_by_identity list_decision_evidence_records
    try_dep_relationship try_namespace try_composite_key try_confirmed_link_assertion
    list_link_assertions_for_resource list_link_assertions
build-link_assertion_ids_example =
    build-link_assertion_ids text_table times draws ("loan-7" ∷ []) "org-1" (some "t0") [] stored
      built.1 built.0 refl
