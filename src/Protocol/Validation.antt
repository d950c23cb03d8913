-- ===== src/Protocol/Validation.antt =====
-- `validate_envelope` of src/notary_platform/dep/validation.py, and the errors of dep/errors.py. The
-- verdict of the JSON schema of the envelope is the field `schema_error` of `Schemas`; a result of
-- `none` is an exception.
use notary_platform.Prelude.{
  String, Bool, true, false, not, ◌&&◌, Option, none, some, List, [], ◌∷◌, ◌++◌, if◌then◌else◌,
  ◌<>◌, elem, nonblank,
}
use notary_platform.Value.{Fields, end, field, text, texts, ◌>>=◌}
use notary_platform.Protocol.Digest.{
  Codec, Outcome, value, raised, inner, text_at, compute_digest, verify_digest,
}

pub record DepError : Type 0 where
  pub code : String
  pub message : String
  pub json_pointer : String
  pub resource_id : String
  pub details : Fields
  pub retryable : Bool
  pub remediation : String

abbrev pub schema_validation_error : (message json_pointer resource_id : String) → Fields → DepError
schema_validation_error message json_pointer resource_id details = record {
  code = "dep_schema_invalid";
  message = message;
  json_pointer = json_pointer;
  resource_id = resource_id;
  details = details;
  retryable = false;
  remediation = "Review the resource payload against the published schema.";
}

abbrev pub digest_mismatch_error : (message json_pointer resource_id : String) → Fields → DepError
digest_mismatch_error message json_pointer resource_id details = record {
  code = "resource_digest_mismatch";
  message = message;
  json_pointer = json_pointer;
  resource_id = resource_id;
  details = details;
  retryable = false;
  remediation = "Recompute the digest from canonical JSON and update the envelope.";
}

abbrev pub version_unsupported_error :
    (message json_pointer resource_id : String) → Fields → DepError
version_unsupported_error message json_pointer resource_id details = record {
  code = "dep_version_unsupported";
  message = message;
  json_pointer = json_pointer;
  resource_id = resource_id;
  details = details;
  retryable = false;
  remediation = "Use a supported protocol version (0.1.x).";
}

-- `schema_error` is the message and the pointer of the first violation that `jsonschema` finds.
-- `is_registered` says whether the registry has a schema of a name.
pub record Schemas : Type 0 where
  pub schema_error : Fields → Option (String × String)
  pub is_registered : String → Bool

abbrev pub supported_versions : List String
supported_versions = "0.1.0" ∷ []

unfoldable pub version_errors : (version resource_id : String) → List DepError
unfolding elem
version_errors version resource_id =
    if not (elem version supported_versions)
    then version_unsupported_error ("DEP version '" <> version <> "' is not supported") "/version"
        resource_id
        (field "version" (text version) (field "supported" (texts supported_versions) end))
      ∷ []
    else []

unfoldable pub type_errors : Schemas → (resource_type resource_id : String) → List DepError
type_errors schemas resource_type resource_id =
    if nonblank resource_type && not (schemas.is_registered resource_type)
    then schema_validation_error ("Unknown resource type: '" <> resource_type <> "'")
        "/resource/type" resource_id (field "resource_type" (text resource_type) end)
      ∷ []
    else []

abbrev pub computation_failed : (message resource_id : String) → List DepError
computation_failed message resource_id =
    schema_validation_error ("Digest computation failed: " <> message) "" resource_id end ∷ []

-- the details of a mismatch, whose expected digest is the one of SHA-256 whatever is declared
abbrev pub mismatch : (resource_id declared algorithm : String) → Outcome String → List DepError
mismatch resource_id declared algorithm (raised message) = computation_failed message resource_id
mismatch resource_id declared algorithm (value expected) =
    digest_mismatch_error "Declared digest does not match recomputed digest" "/digest/value"
      resource_id
      (field "declared" (text declared)
        (field "expected" (text expected) (field "algorithm" (text algorithm) end)))
    ∷ []

abbrev pub text_or : Option String → String → String
text_or none default = default
text_or (some t) default = t

-- `envelope["digest"][key]`: a digest that was verified is a dict of texts
abbrev pub declared_part : String → String → Fields → String
declared_part key default envelope =
    text_or (inner "digest" envelope >>= text_at key default) default

abbrev pub digest_errors_of : Codec → Fields → (resource_id : String) → Outcome Bool → List DepError
digest_errors_of codec envelope resource_id (raised message) =
    computation_failed message resource_id
digest_errors_of codec envelope resource_id (value true) = []
digest_errors_of codec envelope resource_id (value false) =
    mismatch resource_id (declared_part "value" "" envelope)
      (declared_part "algorithm" "sha256" envelope) (compute_digest codec envelope "sha256")

unfoldable pub digest_errors : Codec → Fields → (resource_id : String) → List DepError
unfolding verify_digest compute_digest
digest_errors codec envelope resource_id =
    digest_errors_of codec envelope resource_id (verify_digest codec envelope)

-- the errors of an envelope that its schema accepts
abbrev pub checked_errors :
    Codec → Schemas → Fields → (version resource_type resource_id : String) → List DepError
checked_errors codec schemas envelope version resource_type resource_id =
    version_errors version resource_id
    ++ (type_errors schemas resource_type resource_id ++ digest_errors codec envelope resource_id)

abbrev pub validate_with :
    Codec
    → Schemas
    → Fields
    → Fields
    → (resource_id : String) → Option (String × String)
    → Option (List DepError)
validate_with codec schemas envelope resource resource_id (some (message, pointer)) =
    some (schema_validation_error message pointer resource_id end ∷ [])
validate_with codec schemas envelope resource resource_id none = do
  version ← text_at "version" "" envelope
  resource_type ← text_at "type" "" resource
  some (checked_errors codec schemas envelope version resource_type resource_id)

unfoldable pub validate_envelope : Codec → Schemas → Fields → Option (List DepError)
validate_envelope codec schemas envelope = do
  resource ← inner "resource" envelope
  resource_id ← text_at "id" "" resource
  validate_with codec schemas envelope resource resource_id (schemas.schema_error envelope)
