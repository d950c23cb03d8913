-- ===== src/Records/Conflict.antt =====
-- `ContextConflict` of src/notary_platform/discovery/models.py: its fields and defaults, and its
-- dict form.
use notary_platform.Prelude.{
  String, ◌≡◌, true, Option, some, [], ◌∷◌, ◌<>◌, nonblank, if◌then◌else◌,
}
use notary_platform.Value.{Draw, Value, as_text, get_as, text, ◌>>=◌}
use notary_platform.Dict.{Dict}

pub record ContextConflict : Type 0 where
  pub id : String
  pub org_id : String
  pub der_id : String
  pub field_or_binding : String
  pub binding_a_id : String
  pub binding_b_id : String
  pub authority_a : String
  pub authority_b : String
  pub resolution : String
  pub resolved_by : String
  pub resolved_at : String
  pub created_at : String

-- The field defaults.
abbrev pub blank : ContextConflict
blank = record {
  id = "";
  org_id = "";
  der_id = "";
  field_or_binding = "";
  binding_a_id = "";
  binding_b_id = "";
  authority_a = "";
  authority_b = "";
  resolution = "";
  resolved_by = "";
  resolved_at = "";
  created_at = "";
}

-- `__post_init__`: an empty id or creation time is drawn.
unfoldable pub post_init : Draw → ContextConflict → ContextConflict
post_init draw r = record r {
  id = if nonblank r.id then r.id else "cc-" <> draw.hex;
  created_at = if nonblank r.created_at then r.created_at else draw.now;
}

unfoldable pub to_dict : ContextConflict → Dict Value
to_dict r =
    ("id", text r.id)
    ∷ ("org_id", text r.org_id)
    ∷ ("der_id", text r.der_id)
    ∷ ("field_or_binding", text r.field_or_binding)
    ∷ ("binding_a_id", text r.binding_a_id)
    ∷ ("binding_b_id", text r.binding_b_id)
    ∷ ("authority_a", text r.authority_a)
    ∷ ("authority_b", text r.authority_b)
    ∷ ("resolution", text r.resolution)
    ∷ ("resolved_by", text r.resolved_by)
    ∷ ("resolved_at", text r.resolved_at)
    ∷ ("created_at", text r.created_at)
    ∷ []

unfoldable pub from_dict : Draw → Dict Value → Option ContextConflict
unfolding post_init get_as
from_dict draw d = do
  id ← get_as as_text "id" ("cc-" <> draw.hex) d
  org_id ← get_as as_text "org_id" "" d
  der_id ← get_as as_text "der_id" "" d
  field_or_binding ← get_as as_text "field_or_binding" "" d
  binding_a_id ← get_as as_text "binding_a_id" "" d
  binding_b_id ← get_as as_text "binding_b_id" "" d
  authority_a ← get_as as_text "authority_a" "" d
  authority_b ← get_as as_text "authority_b" "" d
  resolution ← get_as as_text "resolution" "" d
  resolved_by ← get_as as_text "resolved_by" "" d
  resolved_at ← get_as as_text "resolved_at" "" d
  created_at ← get_as as_text "created_at" "" d
  some (
      post_init draw (record {
        id = id;
        org_id = org_id;
        der_id = der_id;
        field_or_binding = field_or_binding;
        binding_a_id = binding_a_id;
        binding_b_id = binding_b_id;
        authority_a = authority_a;
        authority_b = authority_b;
        resolution = resolution;
        resolved_by = resolved_by;
        resolved_at = resolved_at;
        created_at = created_at;
      }))

-- Reading back what `to_dict` wrote gives the same ContextConflict,
-- when its id and its creation time are not empty.
pub conflict_round_trip :
    (draw : Draw) (r : ContextConflict)
    → nonblank r.id ≡ true
    → nonblank r.created_at ≡ true
    → from_dict draw (to_dict r) ≡ some r
unfolding from_dict to_dict
conflict_round_trip draw r named dated = rw (named, dated)
