-- ===== src/Records/Trace.antt =====
-- `ResolutionTrace` of src/notary_platform/discovery/models.py: its fields and defaults, and its
-- dict form.
use notary_platform.Prelude.{
  String, ◌≡◌, true, Option, some, List, [], ◌∷◌, ◌<>◌, nonblank, if◌then◌else◌,
}
use notary_platform.Value.{
  Draw, Fields, Value, as_fields, as_text, as_texts, end, get_as, obj, text, texts, ◌>>=◌,
}
use notary_platform.Dict.{Dict}

pub record ResolutionTrace : Type 0 where
  pub id : String
  pub der_id : String
  pub org_id : String
  pub included_bindings : List String
  pub excluded_bindings : List String
  pub superseded_bindings : List String
  pub missing_artifacts : List String
  pub stale_artifacts : List String
  pub redacted_artifacts : List String
  pub conflicted_bindings : List String
  pub reasons : Fields
  pub created_at : String

-- The field defaults.
abbrev pub blank : ResolutionTrace
blank = record {
  id = "";
  der_id = "";
  org_id = "";
  included_bindings = [];
  excluded_bindings = [];
  superseded_bindings = [];
  missing_artifacts = [];
  stale_artifacts = [];
  redacted_artifacts = [];
  conflicted_bindings = [];
  reasons = end;
  created_at = "";
}

-- `__post_init__`: an empty id or creation time is drawn.
unfoldable pub post_init : Draw → ResolutionTrace → ResolutionTrace
post_init draw r = record r {
  id = if nonblank r.id then r.id else "rt-" <> draw.hex;
  created_at = if nonblank r.created_at then r.created_at else draw.now;
}

unfoldable pub to_dict : ResolutionTrace → Dict Value
to_dict r =
    ("id", text r.id)
    ∷ ("der_id", text r.der_id)
    ∷ ("org_id", text r.org_id)
    ∷ ("included_bindings", texts r.included_bindings)
    ∷ ("excluded_bindings", texts r.excluded_bindings)
    ∷ ("superseded_bindings", texts r.superseded_bindings)
    ∷ ("missing_artifacts", texts r.missing_artifacts)
    ∷ ("stale_artifacts", texts r.stale_artifacts)
    ∷ ("redacted_artifacts", texts r.redacted_artifacts)
    ∷ ("conflicted_bindings", texts r.conflicted_bindings)
    ∷ ("reasons", obj r.reasons)
    ∷ ("created_at", text r.created_at)
    ∷ []

unfoldable pub from_dict : Draw → Dict Value → Option ResolutionTrace
unfolding post_init get_as
from_dict draw d = do
  id ← get_as as_text "id" ("rt-" <> draw.hex) d
  der_id ← get_as as_text "der_id" "" d
  org_id ← get_as as_text "org_id" "" d
  included_bindings ← get_as as_texts "included_bindings" [] d
  excluded_bindings ← get_as as_texts "excluded_bindings" [] d
  superseded_bindings ← get_as as_texts "superseded_bindings" [] d
  missing_artifacts ← get_as as_texts "missing_artifacts" [] d
  stale_artifacts ← get_as as_texts "stale_artifacts" [] d
  redacted_artifacts ← get_as as_texts "redacted_artifacts" [] d
  conflicted_bindings ← get_as as_texts "conflicted_bindings" [] d
  reasons ← get_as as_fields "reasons" end d
  created_at ← get_as as_text "created_at" "" d
  some (
      post_init draw (record {
        id = id;
        der_id = der_id;
        org_id = org_id;
        included_bindings = included_bindings;
        excluded_bindings = excluded_bindings;
        superseded_bindings = superseded_bindings;
        missing_artifacts = missing_artifacts;
        stale_artifacts = stale_artifacts;
        redacted_artifacts = redacted_artifacts;
        conflicted_bindings = conflicted_bindings;
        reasons = reasons;
        created_at = created_at;
      }))

-- Reading back what `to_dict` wrote gives the same ResolutionTrace,
-- when its id and its creation time are not empty.
pub trace_round_trip :
    (draw : Draw) (r : ResolutionTrace)
    → nonblank r.id ≡ true
    → nonblank r.created_at ≡ true
    → from_dict draw (to_dict r) ≡ some r
unfolding from_dict to_dict
trace_round_trip draw r named dated = rw (named, dated)
