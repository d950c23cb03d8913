-- ===== src/Records/Evidence.antt =====
-- `DecisionEvidenceRecord` of src/notary_platform/discovery/models.py: its fields and defaults, and
-- its dict form.
use notary_platform.Prelude.{
  ℕ, String, ◌≡◌, Bool, true, false, Option, some, List, [], ◌∷◌, ◌<>◌, nonblank, if◌then◌else◌,
}
use notary_platform.Value.{
  Draw, Value, as_bool, as_num, as_text, as_texts, bool, get_as, num, text, texts, ◌>>=◌,
}
use notary_platform.Dict.{Dict}

pub record DecisionEvidenceRecord : Type 0 where
  pub id : String
  pub org_id : String
  pub environment_id : String
  pub decision_identity : String
  pub identity_method : String
  pub source_resource_ids : List String
  pub context_binding_ids : List String
  pub link_assertion_ids : List String
  pub resolution_trace_id : String
  pub evidence_level : String
  pub enriched : Bool
  pub version : ℕ
  pub created_at : String

-- The field defaults.
abbrev pub blank : DecisionEvidenceRecord
blank = record {
  id = "";
  org_id = "";
  environment_id = "";
  decision_identity = "";
  identity_method = "";
  source_resource_ids = [];
  context_binding_ids = [];
  link_assertion_ids = [];
  resolution_trace_id = "";
  evidence_level = "";
  enriched = false;
  version = 1;
  created_at = "";
}

-- `__post_init__`: an empty id or creation time is drawn.
unfoldable pub post_init : Draw → DecisionEvidenceRecord → DecisionEvidenceRecord
post_init draw r = record r {
  id = if nonblank r.id then r.id else "der-" <> draw.hex;
  created_at = if nonblank r.created_at then r.created_at else draw.now;
}

unfoldable pub to_dict : DecisionEvidenceRecord → Dict Value
to_dict r =
    ("id", text r.id)
    ∷ ("org_id", text r.org_id)
    ∷ ("environment_id", text r.environment_id)
    ∷ ("decision_identity", text r.decision_identity)
    ∷ ("identity_method", text r.identity_method)
    ∷ ("source_resource_ids", texts r.source_resource_ids)
    ∷ ("context_binding_ids", texts r.context_binding_ids)
    ∷ ("link_assertion_ids", texts r.link_assertion_ids)
    ∷ ("resolution_trace_id", text r.resolution_trace_id)
    ∷ ("evidence_level", text r.evidence_level)
    ∷ ("enriched", bool r.enriched)
    ∷ ("version", num r.version)
    ∷ ("created_at", text r.created_at)
    ∷ []

unfoldable pub from_dict : Draw → Dict Value → Option DecisionEvidenceRecord
unfolding post_init get_as
from_dict draw d = do
  id ← get_as as_text "id" ("der-" <> draw.hex) d
  org_id ← get_as as_text "org_id" "" d
  environment_id ← get_as as_text "environment_id" "" d
  decision_identity ← get_as as_text "decision_identity" "" d
  identity_method ← get_as as_text "identity_method" "exact_id" d
  source_resource_ids ← get_as as_texts "source_resource_ids" [] d
  context_binding_ids ← get_as as_texts "context_binding_ids" [] d
  link_assertion_ids ← get_as as_texts "link_assertion_ids" [] d
  resolution_trace_id ← get_as as_text "resolution_trace_id" "" d
  evidence_level ← get_as as_text "evidence_level" "" d
  enriched ← get_as as_bool "enriched" false d
  version ← get_as as_num "version" 1 d
  created_at ← get_as as_text "created_at" "" d
  some (
      post_init draw (record {
        id = id;
        org_id = org_id;
        environment_id = environment_id;
        decision_identity = decision_identity;
        identity_method = identity_method;
        source_resource_ids = source_resource_ids;
        context_binding_ids = context_binding_ids;
        link_assertion_ids = link_assertion_ids;
        resolution_trace_id = resolution_trace_id;
        evidence_level = evidence_level;
        enriched = enriched;
        version = version;
        created_at = created_at;
      }))

-- Reading back what `to_dict` wrote gives the same DecisionEvidenceRecord,
-- when its id and its creation time are not empty.
pub evidence_round_trip :
    (draw : Draw) (r : DecisionEvidenceRecord)
    → nonblank r.id ≡ true
    → nonblank r.created_at ≡ true
    → from_dict draw (to_dict r) ≡ some r
unfolding from_dict to_dict
evidence_round_trip draw r named dated = rw (named, dated)
