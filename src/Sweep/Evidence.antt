-- ===== src/Sweep/Evidence.antt =====
-- The frozen views of src/notary_platform/sweep/evaluators/base.py that evaluators and the
-- sufficiency service read.
use notary_platform.Prelude.{ℕ, String, Bool, false, List, Option, none, some}
use notary_platform.Value.{Value, Fields, field?, truthy}

pub record FrozenDecisionEvidenceRecord : Type 0 where
  pub id : String
  pub org_id : String
  pub decision_identity : String
  pub identity_method : String
  pub source_resource_ids : List String
  pub context_binding_ids : List String
  pub link_assertion_ids : List String
  pub resolution_trace_id : String
  pub enriched : Bool
  pub version : ℕ
  pub created_at : String

pub record ResolvedContext : Type 0 where
  pub binding_ids : List String
  pub included_artifacts : List String
  pub excluded_artifacts : List String
  pub superseded_bindings : List String
  pub conflicted_bindings : List String
  pub missing_artifacts : List String
  pub stale_artifacts : List String
  pub redacted_artifacts : List String
  pub reasons : Fields

abbrev pub truthy_or_false : Option Value → Bool
truthy_or_false none = false
truthy_or_false (some v) = truthy v

-- bool(context.reasons.get(key, False))
unfoldable pub reason : String → ResolvedContext → Bool
unfolding field? truthy
reason key context = truthy_or_false (field? key context.reasons)
