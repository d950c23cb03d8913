-- ===== src/Records/Delegation.antt =====
-- `PromotionDelegation` of src/notary_platform/sweep/models.py: its fields and defaults, and its
-- dict form.
use notary_platform.Prelude.{
  String, ◌≡◌, Bool, true, Option, some, [], ◌∷◌, ◌<>◌, nonblank, if◌then◌else◌,
}
use notary_platform.Value.{
  Draw, Fields, Value, as_bool, as_fields, as_text, bool, end, get_as, obj, text, ◌>>=◌,
}
use notary_platform.Dict.{Dict}

pub record PromotionDelegation : Type 0 where
  pub id : String
  pub org_id : String
  pub environment_id : String
  pub created_by : String
  pub name : String
  pub version : String
  pub rule_type : String
  pub conditions : Fields
  pub scope : String
  pub effective_period : String
  pub active : Bool
  pub revoked_by : String
  pub revoked_at : String
  pub created_at : String

-- The field defaults.
abbrev pub blank : PromotionDelegation
blank = record {
  id = "";
  org_id = "";
  environment_id = "";
  created_by = "";
  name = "";
  version = "1.0.0";
  rule_type = "";
  conditions = end;
  scope = "";
  effective_period = "";
  active = true;
  revoked_by = "";
  revoked_at = "";
  created_at = "";
}

-- `__post_init__`: an empty id or creation time is drawn.
unfoldable pub post_init : Draw → PromotionDelegation → PromotionDelegation
post_init draw r = record r {
  id = if nonblank r.id then r.id else "pd-" <> draw.hex;
  created_at = if nonblank r.created_at then r.created_at else draw.now;
}

unfoldable pub to_dict : PromotionDelegation → Dict Value
to_dict r =
    ("id", text r.id)
    ∷ ("org_id", text r.org_id)
    ∷ ("environment_id", text r.environment_id)
    ∷ ("created_by", text r.created_by)
    ∷ ("name", text r.name)
    ∷ ("version", text r.version)
    ∷ ("rule_type", text r.rule_type)
    ∷ ("conditions", obj r.conditions)
    ∷ ("scope", text r.scope)
    ∷ ("effective_period", text r.effective_period)
    ∷ ("active", bool r.active)
    ∷ ("revoked_by", text r.revoked_by)
    ∷ ("revoked_at", text r.revoked_at)
    ∷ ("created_at", text r.created_at)
    ∷ []

unfoldable pub from_dict : Draw → Dict Value → Option PromotionDelegation
unfolding post_init get_as
from_dict draw d = do
  id ← get_as as_text "id" ("pd-" <> draw.hex) d
  org_id ← get_as as_text "org_id" "" d
  environment_id ← get_as as_text "environment_id" "" d
  created_by ← get_as as_text "created_by" "" d
  name ← get_as as_text "name" "" d
  version ← get_as as_text "version" "1.0.0" d
  rule_type ← get_as as_text "rule_type" "" d
  conditions ← get_as as_fields "conditions" end d
  scope ← get_as as_text "scope" "" d
  effective_period ← get_as as_text "effective_period" "" d
  active ← get_as as_bool "active" true d
  revoked_by ← get_as as_text "revoked_by" "" d
  revoked_at ← get_as as_text "revoked_at" "" d
  created_at ← get_as as_text "created_at" "" d
  some (
      post_init draw (record {
        id = id;
        org_id = org_id;
        environment_id = environment_id;
        created_by = created_by;
        name = name;
        version = version;
        rule_type = rule_type;
        conditions = conditions;
        scope = scope;
        effective_period = effective_period;
        active = active;
        revoked_by = revoked_by;
        revoked_at = revoked_at;
        created_at = created_at;
      }))

-- Reading back what `to_dict` wrote gives the same PromotionDelegation,
-- when its id and its creation time are not empty.
pub delegation_round_trip :
    (draw : Draw) (r : PromotionDelegation)
    → nonblank r.id ≡ true
    → nonblank r.created_at ≡ true
    → from_dict draw (to_dict r) ≡ some r
unfolding from_dict to_dict
delegation_round_trip draw r named dated = rw (named, dated)
