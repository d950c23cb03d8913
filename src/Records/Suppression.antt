-- ===== src/Records/Suppression.antt =====
-- `SuppressionRule` of src/notary_platform/sweep/models.py: its fields and defaults, and its dict
-- form.
use notary_platform.Prelude.{
  String, ◌≡◌, Bool, true, Option, some, [], ◌∷◌, ◌<>◌, nonblank, if◌then◌else◌,
}
use notary_platform.Value.{Draw, Value, as_bool, as_text, bool, get_as, text, ◌>>=◌}
use notary_platform.Dict.{Dict}

pub record SuppressionRule : Type 0 where
  pub id : String
  pub org_id : String
  pub scope : String
  pub scope_value : String
  pub reason : String
  pub created_by : String
  pub active : Bool
  pub created_at : String

-- The field defaults.
abbrev pub blank : SuppressionRule
blank = record {
  id = "";
  org_id = "";
  scope = "";
  scope_value = "";
  reason = "";
  created_by = "";
  active = true;
  created_at = "";
}

-- `__post_init__`: an empty id or creation time is drawn.
unfoldable pub post_init : Draw → SuppressionRule → SuppressionRule
post_init draw r = record r {
  id = if nonblank r.id then r.id else "sr-" <> draw.hex;
  created_at = if nonblank r.created_at then r.created_at else draw.now;
}

unfoldable pub to_dict : SuppressionRule → Dict Value
to_dict r =
    ("id", text r.id)
    ∷ ("org_id", text r.org_id)
    ∷ ("scope", text r.scope)
    ∷ ("scope_value", text r.scope_value)
    ∷ ("reason", text r.reason)
    ∷ ("created_by", text r.created_by)
    ∷ ("active", bool r.active)
    ∷ ("created_at", text r.created_at)
    ∷ []

unfoldable pub from_dict : Draw → Dict Value → Option SuppressionRule
unfolding post_init get_as
from_dict draw d = do
  id ← get_as as_text "id" ("sr-" <> draw.hex) d
  org_id ← get_as as_text "org_id" "" d
  scope ← get_as as_text "scope" "" d
  scope_value ← get_as as_text "scope_value" "" d
  reason ← get_as as_text "reason" "" d
  created_by ← get_as as_text "created_by" "" d
  active ← get_as as_bool "active" true d
  created_at ← get_as as_text "created_at" "" d
  some (
      post_init draw (record {
        id = id;
        org_id = org_id;
        scope = scope;
        scope_value = scope_value;
        reason = reason;
        created_by = created_by;
        active = active;
        created_at = created_at;
      }))

-- Reading back what `to_dict` wrote gives the same SuppressionRule,
-- when its id and its creation time are not empty.
pub suppression_round_trip :
    (draw : Draw) (r : SuppressionRule)
    → nonblank r.id ≡ true
    → nonblank r.created_at ≡ true
    → from_dict draw (to_dict r) ≡ some r
unfolding from_dict to_dict
suppression_round_trip draw r named dated = rw (named, dated)
