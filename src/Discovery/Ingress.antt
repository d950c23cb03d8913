-- ===== src/Discovery/Ingress.antt =====
-- `IngressService.ingest` of src/notary_platform/discovery/ingress.py. A result of `none` is an
-- exception: an envelope part that is read as a dict or as a text and is none. The theorems are in
-- the module below.
pub mod Accepted
pub mod Answers
pub mod Writes
use notary_platform.Prelude.{
  ℕ, String, Bool, true, false, not, ◌&&◌, ◌||◌, ◌==◌, Option, none, some, List, [], ◌∷◌,
  if◌then◌else◌, ◌<>◌, nonblank, nonempty, map,
}
use notary_platform.Value.{Value, Fields, end, field, text, bool, obj, Draw, ◌>>=◌}
use notary_platform.Records.Resource
use notary_platform.Records.Resource.{DecisionEvidenceResource}
use notary_platform.Records.Integrity
use notary_platform.Records.Integrity.{IntegrityConflict}
use notary_platform.Storage.{
  MemoryStorage, get_resource, create_resource, create_integrity_conflict, persist_payload,
}
use notary_platform.Protocol.Digest.{Codec, inner, text_at}
use notary_platform.Protocol.Validation.{DepError, Schemas, validate_envelope}

pub record IngestionReceipt : Type 0 where
  pub resource_id : String
  pub status : String
  pub envelope_id : String
  pub digest_value : String
  pub conflict_id : String
  pub errors : List Fields

unfoldable pub extract_resource_id : Fields → Option String
extract_resource_id envelope = inner "resource" envelope >>= text_at "id" ""

unfoldable pub extract_provider_id : Fields → Option String
extract_provider_id envelope = inner "resource" envelope >>= text_at "provider_id" ""

unfoldable pub extract_digest_value : Fields → Option String
extract_digest_value envelope = inner "digest" envelope >>= text_at "value" ""

-- the texts of a resource beside its id and its digest
pub record Details : Type 0 where
  pub envelope_id : String
  pub resource_type : String
  pub provider_id : String
  pub digest_algorithm : String
  pub collected_at : String
  pub source_ref : String
  pub version : String

unfoldable pub read_details : (envelope resource digest provenance : Fields) → Option Details
read_details envelope resource digest provenance = do
  provider_id ← text_at "provider_id" "" resource
  envelope_id ← text_at "id" "" envelope
  resource_type ← text_at "type" "unknown" resource
  digest_algorithm ← text_at "algorithm" "sha256" digest
  resource_collected_at ← text_at "collected_at" "" resource
  collected_at ← text_at "collected_at" resource_collected_at provenance
  resource_source_ref ← text_at "source_ref" "" resource
  source_ref ← text_at "source_ref" resource_source_ref provenance
  version ← text_at "version" "" resource
  some (record {
    envelope_id = envelope_id;
    resource_type = resource_type;
    provider_id = provider_id;
    digest_algorithm = digest_algorithm;
    collected_at = collected_at;
    source_ref = source_ref;
    version = version;
  })

unfoldable pub resource_of :
    Draw → (org_id rid digest_value : String) → Details → DecisionEvidenceResource
unfolding Resource.post_init
resource_of draw org_id rid digest_value d = Resource.post_init draw (record {
  resource_id = rid;
  org_id = org_id;
  envelope_id = d.envelope_id;
  resource_type = d.resource_type;
  provider_id = d.provider_id;
  digest_algorithm = d.digest_algorithm;
  digest_value = digest_value;
  payload_ref = "dep://payload/" <> rid;
  environment_id = "";
  provenance_collected_at = d.collected_at;
  provenance_source_ref = d.source_ref;
  version = d.version;
  created_at = "";
})

abbrev pub make_texts :
    Draw → String → Option String → Option String → Option Details → Option DecisionEvidenceResource
make_texts draw org_id rid digest_value details = do
  rid ← rid
  digest_value ← digest_value
  details ← details
  some (resource_of draw org_id rid digest_value details)

abbrev pub make_parts :
    Draw
    → Fields
    → String
    → (resource digest provenance : Option Fields) → Option DecisionEvidenceResource
make_parts draw envelope org_id resource digest provenance = do
  resource ← resource
  digest ← digest
  provenance ← provenance
  make_texts draw org_id (text_at "id" ("res-" <> draw.hex) resource) (text_at "value" "" digest)
      (read_details envelope resource digest provenance)

-- `_make_resource`
unfoldable pub make_resource : Draw → Fields → String → Option DecisionEvidenceResource
make_resource draw envelope org_id =
    make_parts draw envelope org_id (inner "resource" envelope) (inner "digest" envelope)
      (inner "provenance" envelope)

-- `DepError.to_dict`
pub error_dict : DepError → Fields
error_dict e = field "code" (text e.code) (
    field "message" (text e.message) (
      field "json_pointer" (text e.json_pointer) (
        field "resource_id" (text e.resource_id) (
          field "details" (obj e.details) (
            field "retryable" (bool e.retryable) (field "remediation" (text e.remediation) end))))))

abbrev pub receipt : (resource_id status envelope_id digest_value : String) → IngestionReceipt
receipt resource_id status envelope_id digest_value = record {
  resource_id = resource_id;
  status = status;
  envelope_id = envelope_id;
  digest_value = digest_value;
  conflict_id = "";
  errors = [];
}

abbrev pub rejected : String → List Fields → IngestionReceipt
rejected resource_id errors = record (receipt resource_id "rejected" "" "") { errors = errors }

abbrev pub missing_resource_id : Fields
missing_resource_id =
    field "code" (text "missing_resource_id")
      (field "message" (text "Envelope missing resource.id") end)

unfoldable pub conflict_of :
    Draw → (org_id resource_id provider_id existing conflicting : String) → IntegrityConflict
unfolding Integrity.post_init
conflict_of draw org_id resource_id provider_id existing conflicting =
    Integrity.post_init draw (record {
      conflict_id = "con-" <> draw.hex;
      org_id = org_id;
      resource_id = resource_id;
      provider_id = provider_id;
      existing_digest = existing;
      conflicting_digest = conflicting;
      created_at = "";
    })

abbrev pub conflict_error : (resource_id existing conflicting : String) → Fields
conflict_error resource_id existing conflicting = field "code" (text "resource_identity_conflict") (
    field "message"
      (text ("Resource '" <> resource_id <> "' already exists with a different digest"))
      (field "resource_id" (text resource_id) (
        field "existing_digest" (text existing)
          (field "conflicting_digest" (text conflicting) end))))

-- what a call returns: its receipt and the storage after it
abbrev pub Ingested : Type 0
Ingested = IngestionReceipt × MemoryStorage

unfoldable pub quarantine :
    Draw
    → (org_id resource_id provider_id envelope_id existing digest : String) → MemoryStorage
    → Ingested
unfolding conflict_of
quarantine draw org_id resource_id provider_id envelope_id existing digest s =
    let conflict = conflict_of draw org_id resource_id provider_id existing digest in
    (
      record (receipt resource_id "quarantined" envelope_id digest) {
        conflict_id = conflict.conflict_id;
        errors = conflict_error resource_id existing digest ∷ [];
      },
      create_integrity_conflict conflict s,
    )

unfoldable pub store : Fields → DecisionEvidenceResource → MemoryStorage → MemoryStorage
store envelope resource s =
    create_resource resource (persist_payload resource.payload_ref envelope s)

-- a new resource is stored with its envelope
abbrev pub accept :
    Fields
    → (resource_id digest : String) → MemoryStorage
    → Option DecisionEvidenceResource
    → Option String
    → Option Ingested
accept envelope resource_id digest s made named = do
  resource ← made
  envelope_id ← named
  some (receipt resource_id "accepted" envelope_id digest, store envelope resource s)

-- the outcome for a resource id that is there for the organization, or that is not
abbrev pub ingest_found :
    Draw
    → Fields
    → (org_id resource_id digest : String) → MemoryStorage
    → Option DecisionEvidenceResource
    → Option Ingested
ingest_found draw envelope org_id resource_id digest s (some existing) =
    if existing.digest_value == digest
    then (do
      envelope_id ← text_at "id" "" envelope
      some (receipt resource_id "duplicate" envelope_id digest, s))
    else (do
      provider_id ← extract_provider_id envelope
      envelope_id ← text_at "id" "" envelope
      some (
          quarantine draw org_id resource_id provider_id envelope_id existing.digest_value digest
            s))
ingest_found draw envelope org_id resource_id digest s none =
    accept envelope resource_id digest s (make_resource draw envelope org_id)
      (text_at "id" "" envelope)

abbrev pub ingest_valid :
    Draw → Fields → (org_id resource_id : String) → MemoryStorage → Option Ingested
ingest_valid draw envelope org_id resource_id s =
    if not (nonblank resource_id) then some (rejected "" (missing_resource_id ∷ []), s) else (do
      digest ← extract_digest_value envelope
      ingest_found draw envelope org_id resource_id digest s (get_resource resource_id org_id s))

abbrev pub ingest_checked : Draw → Fields → String → MemoryStorage → List DepError → Option Ingested
ingest_checked draw envelope org_id s [] = do
  resource_id ← extract_resource_id envelope
  ingest_valid draw envelope org_id resource_id s
ingest_checked draw envelope org_id s (e ∷ errors) = do
  resource_id ← extract_resource_id envelope
  some (rejected resource_id (map error_dict (e ∷ errors)), s)

unfoldable pub ingest : Codec → Schemas → Draw → Fields → String → MemoryStorage → Option Ingested
ingest codec schemas draw envelope org_id s = do
  errors ← validate_envelope codec schemas envelope
  ingest_checked draw envelope org_id s errors
