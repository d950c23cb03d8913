-- ===== src/Records/Link.antt =====
-- `LinkAssertion` of src/notary_platform/discovery/models.py: its fields and defaults, and its dict
-- form.
use notary_platform.Prelude.{
  String, ◌≡◌, true, Option, some, [], ◌∷◌, ◌<>◌, nonblank, if◌then◌else◌,
}
use notary_platform.Value.{Draw, Value, as_text, get_as, text, ◌>>=◌}
use notary_platform.Dict.{Dict}

pub record LinkAssertion : Type 0 where
  pub id : String
  pub org_id : String
  pub source_resource_id : String
  pub target_resource_id : String
  pub relationship : String
  pub basis : String
  pub status : String
  pub created_by : String
  pub created_at : String
  pub confirmed_at : String

-- The field defaults.
abbrev pub blank : LinkAssertion
blank = record {
  id = "";
  org_id = "";
  source_resource_id = "";
  target_resource_id = "";
  relationship = "";
  basis = "";
  status = "inferred";
  created_by = "";
  created_at = "";
  confirmed_at = "";
}

-- `__post_init__`: an empty id or creation time is drawn.
unfoldable pub post_init : Draw → LinkAssertion → LinkAssertion
post_init draw r = record r {
  id = if nonblank r.id then r.id else "la-" <> draw.hex;
  created_at = if nonblank r.created_at then r.created_at else draw.now;
}

unfoldable pub to_dict : LinkAssertion → Dict Value
to_dict r =
    ("id", text r.id)
    ∷ ("org_id", text r.org_id)
    ∷ ("source_resource_id", text r.source_resource_id)
    ∷ ("target_resource_id", text r.target_resource_id)
    ∷ ("relationship", text r.relationship)
    ∷ ("basis", text r.basis)
    ∷ ("status", text r.status)
    ∷ ("created_by", text r.created_by)
    ∷ ("created_at", text r.created_at)
    ∷ ("confirmed_at", text r.confirmed_at)
    ∷ []

unfoldable pub from_dict : Draw → Dict Value → Option LinkAssertion
unfolding post_init get_as
from_dict draw d = do
  id ← get_as as_text "id" ("la-" <> draw.hex) d
  org_id ← get_as as_text "org_id" "" d
  source_resource_id ← get_as as_text "source_resource_id" "" d
  target_resource_id ← get_as as_text "target_resource_id" "" d
  relationship ← get_as as_text "relationship" "" d
  basis ← get_as as_text "basis" "inferred" d
  status ← get_as as_text "status" "inferred" d
  created_by ← get_as as_text "created_by" "" d
  created_at ← get_as as_text "created_at" "" d
  confirmed_at ← get_as as_text "confirmed_at" "" d
  some (
      post_init draw (record {
        id = id;
        org_id = org_id;
        source_resource_id = source_resource_id;
        target_resource_id = target_resource_id;
        relationship = relationship;
        basis = basis;
        status = status;
        created_by = created_by;
        created_at = created_at;
        confirmed_at = confirmed_at;
      }))

-- Reading back what `to_dict` wrote gives the same LinkAssertion,
-- when its id and its creation time are not empty.
pub link_round_trip :
    (draw : Draw) (r : LinkAssertion)
    → nonblank r.id ≡ true
    → nonblank r.created_at ≡ true
    → from_dict draw (to_dict r) ≡ some r
unfolding from_dict to_dict
link_round_trip draw r named dated = rw (named, dated)
