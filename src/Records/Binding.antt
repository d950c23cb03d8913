-- ===== src/Records/Binding.antt =====
-- `ContextBinding` of src/notary_platform/discovery/models.py: its fields and defaults, and its
-- dict form.
use notary_platform.Prelude.{
  String, ◌≡◌, true, Option, some, [], ◌∷◌, ◌<>◌, nonblank, if◌then◌else◌,
}
use notary_platform.Value.{Draw, Value, as_text, get_as, text, ◌>>=◌}
use notary_platform.Dict.{Dict}

pub record ContextBinding : Type 0 where
  pub id : String
  pub org_id : String
  pub environment_id : String
  pub subject_scope : String
  pub subject_selector : String
  pub binding_type : String
  pub artifact_ref : String
  pub effective_from : String
  pub effective_until : String
  pub authority : String
  pub superseded_by : String
  pub created_at : String

-- The field defaults.
abbrev pub blank : ContextBinding
blank = record {
  id = "";
  org_id = "";
  environment_id = "";
  subject_scope = "";
  subject_selector = "";
  binding_type = "";
  artifact_ref = "";
  effective_from = "";
  effective_until = "";
  authority = "customer_confirmed";
  superseded_by = "";
  created_at = "";
}

-- `__post_init__`: an empty id or creation time is drawn.
unfoldable pub post_init : Draw → ContextBinding → ContextBinding
post_init draw r = record r {
  id = if nonblank r.id then r.id else "cb-" <> draw.hex;
  created_at = if nonblank r.created_at then r.created_at else draw.now;
}

unfoldable pub to_dict : ContextBinding → Dict Value
to_dict r =
    ("id", text r.id)
    ∷ ("org_id", text r.org_id)
    ∷ ("environment_id", text r.environment_id)
    ∷ ("subject_scope", text r.subject_scope)
    ∷ ("subject_selector", text r.subject_selector)
    ∷ ("binding_type", text r.binding_type)
    ∷ ("artifact_ref", text r.artifact_ref)
    ∷ ("effective_from", text r.effective_from)
    ∷ ("effective_until", text r.effective_until)
    ∷ ("authority", text r.authority)
    ∷ ("superseded_by", text r.superseded_by)
    ∷ ("created_at", text r.created_at)
    ∷ []

unfoldable pub from_dict : Draw → Dict Value → Option ContextBinding
unfolding post_init get_as
from_dict draw d = do
  id ← get_as as_text "id" ("cb-" <> draw.hex) d
  org_id ← get_as as_text "org_id" "" d
  environment_id ← get_as as_text "environment_id" "" d
  subject_scope ← get_as as_text "subject_scope" "" d
  subject_selector ← get_as as_text "subject_selector" "" d
  binding_type ← get_as as_text "binding_type" "" d
  artifact_ref ← get_as as_text "artifact_ref" "" d
  effective_from ← get_as as_text "effective_from" "" d
  effective_until ← get_as as_text "effective_until" "" d
  authority ← get_as as_text "authority" "customer_confirmed" d
  superseded_by ← get_as as_text "superseded_by" "" d
  created_at ← get_as as_text "created_at" "" d
  some (
      post_init draw (record {
        id = id;
        org_id = org_id;
        environment_id = environment_id;
        subject_scope = subject_scope;
        subject_selector = subject_selector;
        binding_type = binding_type;
        artifact_ref = artifact_ref;
        effective_from = effective_from;
        effective_until = effective_until;
        authority = authority;
        superseded_by = superseded_by;
        created_at = created_at;
      }))

-- Reading back what `to_dict` wrote gives the same ContextBinding,
-- when its id and its creation time are not empty.
pub binding_round_trip :
    (draw : Draw) (r : ContextBinding)
    → nonblank r.id ≡ true
    → nonblank r.created_at ≡ true
    → from_dict draw (to_dict r) ≡ some r
unfolding from_dict to_dict
binding_round_trip draw r named dated = rw (named, dated)
