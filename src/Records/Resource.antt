-- ===== src/Records/Resource.antt =====
-- `DecisionEvidenceResource` of src/notary_platform/discovery/models.py: its fields and defaults,
-- and its dict form.
use notary_platform.Prelude.{String, ◌≡◌, true, Option, some, [], ◌∷◌, nonblank, if◌then◌else◌}
use notary_platform.Value.{Draw, Value, as_text, get_as, text, ◌>>=◌}
use notary_platform.Dict.{Dict}

pub record DecisionEvidenceResource : Type 0 where
  pub resource_id : String
  pub org_id : String
  pub envelope_id : String
  pub resource_type : String
  pub provider_id : String
  pub digest_algorithm : String
  pub digest_value : String
  pub payload_ref : String
  pub environment_id : String
  pub provenance_collected_at : String
  pub provenance_source_ref : String
  pub version : String
  pub created_at : String

-- `__post_init__`: an empty creation time is drawn.
unfoldable pub post_init : Draw → DecisionEvidenceResource → DecisionEvidenceResource
post_init draw r = record r {
  created_at = if nonblank r.created_at then r.created_at else draw.now;
}

unfoldable pub to_dict : DecisionEvidenceResource → Dict Value
to_dict r =
    ("resource_id", text r.resource_id)
    ∷ ("org_id", text r.org_id)
    ∷ ("environment_id", text r.environment_id)
    ∷ ("envelope_id", text r.envelope_id)
    ∷ ("resource_type", text r.resource_type)
    ∷ ("provider_id", text r.provider_id)
    ∷ ("digest_algorithm", text r.digest_algorithm)
    ∷ ("digest_value", text r.digest_value)
    ∷ ("payload_ref", text r.payload_ref)
    ∷ ("provenance_collected_at", text r.provenance_collected_at)
    ∷ ("provenance_source_ref", text r.provenance_source_ref)
    ∷ ("version", text r.version)
    ∷ ("created_at", text r.created_at)
    ∷ []

unfoldable pub from_dict : Draw → Dict Value → Option DecisionEvidenceResource
unfolding post_init get_as
from_dict draw d = do
  resource_id ← get_as as_text "resource_id" "" d
  org_id ← get_as as_text "org_id" "demo-org" d
  environment_id ← get_as as_text "environment_id" "" d
  envelope_id ← get_as as_text "envelope_id" "" d
  resource_type ← get_as as_text "resource_type" "" d
  provider_id ← get_as as_text "provider_id" "" d
  digest_algorithm ← get_as as_text "digest_algorithm" "" d
  digest_value ← get_as as_text "digest_value" "" d
  payload_ref ← get_as as_text "payload_ref" "" d
  provenance_collected_at ← get_as as_text "provenance_collected_at" "" d
  provenance_source_ref ← get_as as_text "provenance_source_ref" "" d
  version ← get_as as_text "version" "" d
  created_at ← get_as as_text "created_at" "" d
  some (
      post_init draw (record {
        resource_id = resource_id;
        org_id = org_id;
        envelope_id = envelope_id;
        resource_type = resource_type;
        provider_id = provider_id;
        digest_algorithm = digest_algorithm;
        digest_value = digest_value;
        payload_ref = payload_ref;
        environment_id = environment_id;
        provenance_collected_at = provenance_collected_at;
        provenance_source_ref = provenance_source_ref;
        version = version;
        created_at = created_at;
      }))

-- Reading back what `to_dict` wrote gives the same DecisionEvidenceResource,
-- when its creation time is not empty.
pub resource_round_trip :
    (draw : Draw) (r : DecisionEvidenceResource)
    → nonblank r.created_at ≡ true
    → from_dict draw (to_dict r) ≡ some r
unfolding from_dict to_dict
resource_round_trip draw r dated = rw dated
