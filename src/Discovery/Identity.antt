-- ===== src/Discovery/Identity.antt =====
-- `DecisionIdentityResolver` of src/notary_platform/discovery/identity.py. `starts_with` and
-- `replace_first` stand for `str.startswith` and `str.replace` with a count of 1. The theorems are in
-- the module below.
pub mod Precedence
use notary_platform.Prelude.{
  ℕ, String, Bool, true, false, not, ◌&&◌, ◌||◌, ◌==◌, Option, none, some, List, [], ◌∷◌,
  if◌then◌else◌, ◌<>◌, nonblank, nonempty, join, sort_by, next,
}
use notary_platform.Dict.{Dict}
use notary_platform.Value.{Draw}
use notary_platform.Records.Link
use notary_platform.Records.Link.{LinkAssertion}
use notary_platform.Storage.{
  MemoryStorage, list_decision_evidence_records_by_identity, list_link_assertions_for_resource,
  create_link_assertion, get_link_assertion, update_link_assertion,
}

pub record Texts : Type 0 where
  pub starts_with : (text prefix : String) → Bool
  pub replace_first : (text old new : String) → String

-- a decision evidence record of the organization has the identity
unfoldable pub has_record : String → String → MemoryStorage → Bool
unfolding list_decision_evidence_records_by_identity
has_record identity org_id s =
    nonempty (list_decision_evidence_records_by_identity identity org_id s)

unfoldable pub try_exact_id : String → MemoryStorage → String → Option String
unfolding has_record
try_exact_id org_id s resource_id =
    if has_record resource_id org_id s then some resource_id else none

-- the resource at the other end of the link
abbrev pub other_end : String → LinkAssertion → String
other_end resource_id la =
    if la.source_resource_id == resource_id then la.target_resource_id else la.source_resource_id

abbrev pub end_of : String → Option LinkAssertion → Option String
end_of resource_id none = none
end_of resource_id (some la) = some (other_end resource_id la)

unfoldable pub try_dep_relationship : String → MemoryStorage → String → Option String
unfolding next list_link_assertions_for_resource
try_dep_relationship org_id s resource_id = end_of resource_id (
    next
      (λ la.
        la.status == "confirmed"
        && (la.relationship == "exact_match" || la.relationship == "same_decision"))
      (list_link_assertions_for_resource resource_id org_id s))

unfoldable pub try_namespace : Texts → Dict String → String → MemoryStorage → String → Option String
unfolding has_record
try_namespace texts [] org_id s resource_id = none
try_namespace texts ((prefix, ns_id) ∷ mappings) org_id s resource_id =
    let mapped = texts.replace_first resource_id prefix ns_id in
    let rest = try_namespace texts mappings org_id s resource_id in
    if texts.starts_with resource_id prefix && has_record mapped org_id s then some mapped else rest

unfoldable pub composite_key : List String → String
unfolding join sort_by
composite_key resource_ids = join "+" (sort_by (λ id. id) resource_ids)

unfoldable pub try_composite_key : String → MemoryStorage → List String → Option String
unfolding has_record composite_key
try_composite_key org_id s resource_ids =
    if not (nonempty resource_ids)
    then none
    else if has_record (composite_key resource_ids) org_id s
    then some (composite_key resource_ids)
    else none

-- both branches of the source return the other end
unfoldable pub try_confirmed_link_assertion : String → MemoryStorage → String → Option String
unfolding next list_link_assertions_for_resource
try_confirmed_link_assertion org_id s resource_id =
    end_of resource_id (
      next (λ la. la.status == "confirmed")
        (list_link_assertions_for_resource resource_id org_id s))

abbrev pub truthy_text : Option String → Option String
truthy_text none = none
truthy_text (some t) = if nonblank t then some t else none

abbrev pub first_of : Option String → Option String → Option String
first_of none others = others
first_of (some t) others = some t

-- `for rid in resource_ids: found = attempt(rid); if found: return found`
unfoldable pub first_found : (String → Option String) → List String → Option String
first_found attempt [] = none
first_found attempt (rid ∷ rest) =
    let others = first_found attempt rest in first_of (truthy_text (attempt rid)) others

-- (decision_identity, method, link_assertions)
abbrev pub Resolution : Type 0
Resolution = String × String × List LinkAssertion

-- `if found: return found, method, []`
abbrev pub or_method : String → Option String → Resolution → Resolution
or_method method none otherwise = otherwise
or_method method (some identity) otherwise = (identity, method, [])

abbrev pub inferred_from : List String → Resolution
inferred_from [] = ("", "unknown", [])
inferred_from (rid ∷ rest) = (rid, "inferred", [])

unfoldable pub resolve : Texts → List String → String → Dict String → MemoryStorage → Resolution
unfolding first_found try_exact_id try_dep_relationship try_namespace try_composite_key
    try_confirmed_link_assertion
resolve texts resource_ids org_id namespace_mappings s =
    or_method "exact_id" (first_found (try_exact_id org_id s) resource_ids) (
      or_method "dep_relationship" (first_found (try_dep_relationship org_id s) resource_ids) (
        or_method "namespace"
          (first_found (try_namespace texts namespace_mappings org_id s) resource_ids)
          (or_method "composite_key" (truthy_text (try_composite_key org_id s resource_ids)) (
            or_method "link_assertion"
              (first_found (try_confirmed_link_assertion org_id s) resource_ids)
              (inferred_from resource_ids)))))

unfoldable pub suggest_link :
    Draw
    → (source_resource_id target_resource_id relationship org_id basis created_by : String)
    → MemoryStorage
    → LinkAssertion × MemoryStorage
unfolding Link.post_init create_link_assertion
suggest_link draw source_resource_id target_resource_id relationship org_id basis created_by s =
    let la = Link.post_init draw (record Link.blank {
      org_id = org_id;
      source_resource_id = source_resource_id;
      target_resource_id = target_resource_id;
      relationship = relationship;
      basis = basis;
      status = "inferred";
      created_by = created_by;
    }) in
    (la, create_link_assertion la s)

abbrev pub confirm_found :
    String → String → MemoryStorage → Option LinkAssertion → Option LinkAssertion × MemoryStorage
confirm_found now org_id s none = (none, s)
confirm_found now org_id s (some la) =
    if not (la.org_id == org_id)
    then (none, s)
    else let la' = record la { status = "confirmed"; confirmed_at = now } in
      (some la', update_link_assertion la' s)

unfoldable pub confirm_link :
    (now la_id org_id : String) → MemoryStorage → Option LinkAssertion × MemoryStorage
confirm_link now la_id org_id s = confirm_found now org_id s (get_link_assertion la_id s)

abbrev pub reject_found :
    String → MemoryStorage → Option LinkAssertion → Option LinkAssertion × MemoryStorage
reject_found org_id s none = (none, s)
reject_found org_id s (some la) =
    if not (la.org_id == org_id)
    then (none, s)
    else let la' = record la { status = "rejected" } in (some la', update_link_assertion la' s)

unfoldable pub reject_link :
    (la_id org_id : String) → MemoryStorage → Option LinkAssertion × MemoryStorage
reject_link la_id org_id s = reject_found org_id s (get_link_assertion la_id s)
