-- ===== src/Records/Review.antt =====
-- `ReviewDecision` of src/notary_platform/sweep/models.py: its fields and defaults, and its dict
-- form.
use notary_platform.Prelude.{
  String, ◌≡◌, true, Option, some, [], ◌∷◌, ◌<>◌, nonblank, if◌then◌else◌,
}
use notary_platform.Value.{Draw, Value, as_text, get_as, text, ◌>>=◌}
use notary_platform.Dict.{Dict}

pub record ReviewDecision : Type 0 where
  pub id : String
  pub candidate_id : String
  pub org_id : String
  pub environment_id : String
  pub actor : String
  pub role : String
  pub decision : String
  pub basis : String
  pub scope : String
  pub effective_period : String
  pub superseded_decision_id : String
  pub created_at : String

-- The field defaults.
abbrev pub blank : ReviewDecision
blank = record {
  id = "";
  candidate_id = "";
  org_id = "";
  environment_id = "";
  actor = "";
  role = "";
  decision = "";
  basis = "";
  scope = "";
  effective_period = "";
  superseded_decision_id = "";
  created_at = "";
}

-- `__post_init__`: an empty id or creation time is drawn.
unfoldable pub post_init : Draw → ReviewDecision → ReviewDecision
post_init draw r = record r {
  id = if nonblank r.id then r.id else "rd-" <> draw.hex;
  created_at = if nonblank r.created_at then r.created_at else draw.now;
}

unfoldable pub to_dict : ReviewDecision → Dict Value
to_dict r =
    ("id", text r.id)
    ∷ ("candidate_id", text r.candidate_id)
    ∷ ("org_id", text r.org_id)
    ∷ ("environment_id", text r.environment_id)
    ∷ ("actor", text r.actor)
    ∷ ("role", text r.role)
    ∷ ("decision", text r.decision)
    ∷ ("basis", text r.basis)
    ∷ ("scope", text r.scope)
    ∷ ("effective_period", text r.effective_period)
    ∷ ("superseded_decision_id", text r.superseded_decision_id)
    ∷ ("created_at", text r.created_at)
    ∷ []

unfoldable pub from_dict : Draw → Dict Value → Option ReviewDecision
unfolding post_init get_as
from_dict draw d = do
  id ← get_as as_text "id" ("rd-" <> draw.hex) d
  candidate_id ← get_as as_text "candidate_id" "" d
  org_id ← get_as as_text "org_id" "" d
  environment_id ← get_as as_text "environment_id" "" d
  actor ← get_as as_text "actor" "" d
  role ← get_as as_text "role" "" d
  decision ← get_as as_text "decision" "" d
  basis ← get_as as_text "basis" "" d
  scope ← get_as as_text "scope" "" d
  effective_period ← get_as as_text "effective_period" "" d
  superseded_decision_id ← get_as as_text "superseded_decision_id" "" d
  created_at ← get_as as_text "created_at" "" d
  some (
      post_init draw (record {
        id = id;
        candidate_id = candidate_id;
        org_id = org_id;
        environment_id = environment_id;
        actor = actor;
        role = role;
        decision = decision;
        basis = basis;
        scope = scope;
        effective_period = effective_period;
        superseded_decision_id = superseded_decision_id;
        created_at = created_at;
      }))

-- Reading back what `to_dict` wrote gives the same ReviewDecision,
-- when its id and its creation time are not empty.
pub review_round_trip :
    (draw : Draw) (r : ReviewDecision)
    → nonblank r.id ≡ true
    → nonblank r.created_at ≡ true
    → from_dict draw (to_dict r) ≡ some r
unfolding from_dict to_dict
review_round_trip draw r named dated = rw (named, dated)
