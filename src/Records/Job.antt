-- ===== src/Records/Job.antt =====
-- `SweepJob` of src/notary_platform/sweep/jobs.py: its fields and defaults, and its dict form.
use notary_platform.Prelude.{
  ℕ, String, ◌≡◌, true, Option, some, [], ◌∷◌, ◌<>◌, nonblank, if◌then◌else◌,
}
use notary_platform.Value.{
  Draw, Fields, Value, as_fields, as_num, as_text, end, get_as, num, obj, text, ◌>>=◌,
}
use notary_platform.Dict.{Dict}

pub record SweepJob : Type 0 where
  pub id : String
  pub org_id : String
  pub run_id : String
  pub job_type : String
  pub status : String
  pub payload : Fields
  pub retry_count : ℕ
  pub max_retries : ℕ
  pub error_code : String
  pub error_message : String
  pub created_at : String
  pub claimed_at : String
  pub completed_at : String

-- The field defaults.
abbrev pub blank : SweepJob
blank = record {
  id = "";
  org_id = "";
  run_id = "";
  job_type = "";
  status = "queued";
  payload = end;
  retry_count = 0;
  max_retries = 3;
  error_code = "";
  error_message = "";
  created_at = "";
  claimed_at = "";
  completed_at = "";
}

-- `__post_init__`: an empty id or creation time is drawn.
unfoldable pub post_init : Draw → SweepJob → SweepJob
post_init draw r = record r {
  id = if nonblank r.id then r.id else "j-" <> draw.hex;
  created_at = if nonblank r.created_at then r.created_at else draw.now;
}

unfoldable pub to_dict : SweepJob → Dict Value
to_dict r =
    ("id", text r.id)
    ∷ ("org_id", text r.org_id)
    ∷ ("run_id", text r.run_id)
    ∷ ("job_type", text r.job_type)
    ∷ ("status", text r.status)
    ∷ ("payload", obj r.payload)
    ∷ ("retry_count", num r.retry_count)
    ∷ ("max_retries", num r.max_retries)
    ∷ ("error_code", text r.error_code)
    ∷ ("error_message", text r.error_message)
    ∷ ("created_at", text r.created_at)
    ∷ ("claimed_at", text r.claimed_at)
    ∷ ("completed_at", text r.completed_at)
    ∷ []

unfoldable pub from_dict : Draw → Dict Value → Option SweepJob
unfolding post_init get_as
from_dict draw d = do
  id ← get_as as_text "id" ("j-" <> draw.hex) d
  org_id ← get_as as_text "org_id" "" d
  run_id ← get_as as_text "run_id" "" d
  job_type ← get_as as_text "job_type" "" d
  status ← get_as as_text "status" "queued" d
  payload ← get_as as_fields "payload" end d
  retry_count ← get_as as_num "retry_count" 0 d
  max_retries ← get_as as_num "max_retries" 3 d
  error_code ← get_as as_text "error_code" "" d
  error_message ← get_as as_text "error_message" "" d
  created_at ← get_as as_text "created_at" "" d
  claimed_at ← get_as as_text "claimed_at" "" d
  completed_at ← get_as as_text "completed_at" "" d
  some (
      post_init draw (record {
        id = id;
        org_id = org_id;
        run_id = run_id;
        job_type = job_type;
        status = status;
        payload = payload;
        retry_count = retry_count;
        max_retries = max_retries;
        error_code = error_code;
        error_message = error_message;
        created_at = created_at;
        claimed_at = claimed_at;
        completed_at = completed_at;
      }))

-- Reading back what `to_dict` wrote gives the same SweepJob,
-- when its id and its creation time are not empty.
pub job_round_trip :
    (draw : Draw) (r : SweepJob)
    → nonblank r.id ≡ true
    → nonblank r.created_at ≡ true
    → from_dict draw (to_dict r) ≡ some r
unfolding from_dict to_dict
job_round_trip draw r named dated = rw (named, dated)
