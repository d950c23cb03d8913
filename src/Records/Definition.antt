-- ===== src/Records/Definition.antt =====
-- `SweepDefinition` of src/notary_platform/sweep/models.py: its fields and defaults, and its dict
-- form.
use notary_platform.Prelude.{
  ℕ, String, ◌≡◌, Bool, true, Option, some, List, [], ◌∷◌, ◌<>◌, nonblank, if◌then◌else◌,
}
use notary_platform.Value.{
  Draw, Value, as_bool, as_num, as_text, as_texts, bool, get_as, num, text, texts, ◌>>=◌,
}
use notary_platform.Dict.{Dict}

pub record SweepDefinition : Type 0 where
  pub id : String
  pub org_id : String
  pub name : String
  pub description : String
  pub environment_id : String
  pub source_ids : List String
  pub evaluator_ids : List String
  pub mapping_version_ids : List String
  pub suppressions : List String
  pub budget_record_limit : ℕ
  pub budget_evaluator_limit : ℕ
  pub budget_timeout_seconds : ℕ
  pub schedule : String
  pub enabled : Bool
  pub version : ℕ
  pub created_at : String

-- The field defaults.
abbrev pub blank : SweepDefinition
blank = record {
  id = "";
  org_id = "";
  name = "";
  description = "";
  environment_id = "";
  source_ids = [];
  evaluator_ids = [];
  mapping_version_ids = [];
  suppressions = [];
  budget_record_limit = 10000;
  budget_evaluator_limit = 50;
  budget_timeout_seconds = 300;
  schedule = "";
  enabled = true;
  version = 1;
  created_at = "";
}

-- `__post_init__`: an empty id or creation time is drawn.
unfoldable pub post_init : Draw → SweepDefinition → SweepDefinition
post_init draw r = record r {
  id = if nonblank r.id then r.id else "sd-" <> draw.hex;
  created_at = if nonblank r.created_at then r.created_at else draw.now;
}

unfoldable pub to_dict : SweepDefinition → Dict Value
to_dict r =
    ("id", text r.id)
    ∷ ("org_id", text r.org_id)
    ∷ ("name", text r.name)
    ∷ ("description", text r.description)
    ∷ ("environment_id", text r.environment_id)
    ∷ ("source_ids", texts r.source_ids)
    ∷ ("evaluator_ids", texts r.evaluator_ids)
    ∷ ("mapping_version_ids", texts r.mapping_version_ids)
    ∷ ("suppressions", texts r.suppressions)
    ∷ ("budget_record_limit", num r.budget_record_limit)
    ∷ ("budget_evaluator_limit", num r.budget_evaluator_limit)
    ∷ ("budget_timeout_seconds", num r.budget_timeout_seconds)
    ∷ ("schedule", text r.schedule)
    ∷ ("enabled", bool r.enabled)
    ∷ ("version", num r.version)
    ∷ ("created_at", text r.created_at)
    ∷ []

unfoldable pub from_dict : Draw → Dict Value → Option SweepDefinition
unfolding post_init get_as
from_dict draw d = do
  id ← get_as as_text "id" ("sd-" <> draw.hex) d
  org_id ← get_as as_text "org_id" "" d
  name ← get_as as_text "name" "" d
  description ← get_as as_text "description" "" d
  environment_id ← get_as as_text "environment_id" "" d
  source_ids ← get_as as_texts "source_ids" [] d
  evaluator_ids ← get_as as_texts "evaluator_ids" [] d
  mapping_version_ids ← get_as as_texts "mapping_version_ids" [] d
  suppressions ← get_as as_texts "suppressions" [] d
  budget_record_limit ← get_as as_num "budget_record_limit" 10000 d
  budget_evaluator_limit ← get_as as_num "budget_evaluator_limit" 50 d
  budget_timeout_seconds ← get_as as_num "budget_timeout_seconds" 300 d
  schedule ← get_as as_text "schedule" "" d
  enabled ← get_as as_bool "enabled" true d
  version ← get_as as_num "version" 1 d
  created_at ← get_as as_text "created_at" "" d
  some (
      post_init draw (record {
        id = id;
        org_id = org_id;
        name = name;
        description = description;
        environment_id = environment_id;
        source_ids = source_ids;
        evaluator_ids = evaluator_ids;
        mapping_version_ids = mapping_version_ids;
        suppressions = suppressions;
        budget_record_limit = budget_record_limit;
        budget_evaluator_limit = budget_evaluator_limit;
        budget_timeout_seconds = budget_timeout_seconds;
        schedule = schedule;
        enabled = enabled;
        version = version;
        created_at = created_at;
      }))

-- Reading back what `to_dict` wrote gives the same SweepDefinition,
-- when its id and its creation time are not empty.
pub definition_round_trip :
    (draw : Draw) (r : SweepDefinition)
    → nonblank r.id ≡ true
    → nonblank r.created_at ≡ true
    → from_dict draw (to_dict r) ≡ some r
unfolding from_dict to_dict
definition_round_trip draw r named dated = rw (named, dated)
