-- ===== src/Records/Integrity.antt =====
-- `IntegrityConflict` of src/notary_platform/discovery/models.py: its fields and defaults, and its
-- dict form.
use notary_platform.Prelude.{
  String, ◌≡◌, true, Option, some, [], ◌∷◌, ◌<>◌, nonblank, if◌then◌else◌,
}
use notary_platform.Value.{Draw, Value, as_text, get_as, text, ◌>>=◌}
use notary_platform.Dict.{Dict}

pub record IntegrityConflict : Type 0 where
  pub conflict_id : String
  pub org_id : String
  pub resource_id : String
  pub provider_id : String
  pub existing_digest : String
  pub conflicting_digest : String
  pub created_at : String

-- `__post_init__`: an empty id or creation time is drawn.
unfoldable pub post_init : Draw → IntegrityConflict → IntegrityConflict
post_init draw r = record r {
  conflict_id = if nonblank r.conflict_id then r.conflict_id else "con-" <> draw.hex;
  created_at = if nonblank r.created_at then r.created_at else draw.now;
}

unfoldable pub to_dict : IntegrityConflict → Dict Value
to_dict r =
    ("conflict_id", text r.conflict_id)
    ∷ ("org_id", text r.org_id)
    ∷ ("resource_id", text r.resource_id)
    ∷ ("provider_id", text r.provider_id)
    ∷ ("existing_digest", text r.existing_digest)
    ∷ ("conflicting_digest", text r.conflicting_digest)
    ∷ ("created_at", text r.created_at)
    ∷ []

unfoldable pub from_dict : Draw → Dict Value → Option IntegrityConflict
unfolding post_init get_as
from_dict draw d = do
  conflict_id ← get_as as_text "conflict_id" "" d
  org_id ← get_as as_text "org_id" "demo-org" d
  resource_id ← get_as as_text "resource_id" "" d
  provider_id ← get_as as_text "provider_id" "" d
  existing_digest ← get_as as_text "existing_digest" "" d
  conflicting_digest ← get_as as_text "conflicting_digest" "" d
  created_at ← get_as as_text "created_at" "" d
  some (
      post_init draw (record {
        conflict_id = conflict_id;
        org_id = org_id;
        resource_id = resource_id;
        provider_id = provider_id;
        existing_digest = existing_digest;
        conflicting_digest = conflicting_digest;
        created_at = created_at;
      }))

-- Reading back what `to_dict` wrote gives the same IntegrityConflict,
-- when its id and its creation time are not empty.
pub integrity_round_trip :
    (draw : Draw) (r : IntegrityConflict)
    → nonblank r.conflict_id ≡ true
    → nonblank r.created_at ≡ true
    → from_dict draw (to_dict r) ≡ some r
unfolding from_dict to_dict
integrity_round_trip draw r named dated = rw (named, dated)
