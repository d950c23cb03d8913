-- ===== src/Examples/Ingests.antt =====
-- The ingestion of one envelope, with tables for the texts that it has.
use notary_platform.Prelude.{String, ◌≡◌, refl, ◌==◌, Option, none, some, elem, if◌then◌else◌, ◌<>◌}
use mathlib.Core.Option
use notary_platform.Dict.{get, put, or_else}
use notary_platform.Value.{Value, Fields, end, field, field?, text, obj}
use notary_platform.Storage.{
  MemoryStorage, no_storage, get_resource, owned_by, create_resource, persist_payload,
  create_integrity_conflict,
}
use notary_platform.Records.Resource
use notary_platform.Records.Resource.{DecisionEvidenceResource}
use notary_platform.Records.Integrity
use notary_platform.Protocol.Digest.{Codec, value, raised, without, compute_digest, verify_digest}
use notary_platform.Protocol.Validation.{
  Schemas, validate_envelope, version_errors, type_errors, digest_errors,
}
use notary_platform.Discovery.Ingress.{
  Ingested, ingest, extract_resource_id, extract_digest_value, extract_provider_id, make_resource,
  read_details, resource_of, quarantine, conflict_of, store, receipt,
}
use notary_platform.Discovery.Ingress.Answers.{Answer}
use notary_platform.Discovery.Ingress.Writes.{
  ingest_twice, ingest_first_wins, ingest_overwrites_foreign,
}
use notary_platform.Examples.{draws, supporting}

-- the text of an envelope is told by its body here
abbrev body_of : Option Value → String
body_of (some (text body)) = body
body_of _ = "{}"

abbrev body_text : Fields → String
body_text (field key v rest) =
    let others = body_text rest in if key == "body" then body_of (some v) else others
body_text end = "{}"

abbrev codec : Codec
codec = record {
  canonical_json = body_text;
  hash = λ algorithm canonical.
      if algorithm == "sha256" then value ("h" <> canonical) else raised "unsupported hash type";
  not_a_dict = "'NoneType' object has no attribute 'get'";
}

abbrev schemas : Schemas
schemas = record { schema_error = λ e. none; is_registered = λ t. t == "decision_event" }

abbrev envelope : (body digest : String) → Fields
envelope body digest = field "id" (text "env-1") (
    field "version" (text "0.1.0") (
      field "body" (text body) (
        field "resource"
          (obj (
            field "id" (text "res-1")
              (field "type" (text "decision_event") (field "provider_id" (text "p-1") end))))
          (field "digest"
            (obj (field "algorithm" (text "sha256") (field "value" (text digest) end))) end))))

abbrev nothing_received : Ingested
nothing_received = (receipt "" "" "" "", no_storage)

abbrev received : (org_id body digest : String) → MemoryStorage → Ingested
received org_id body digest s =
    or_else (ingest codec schemas (draws 0) (envelope body digest) org_id s) nothing_received

abbrev ingested : Ingested
ingested = received "org-1" "one" "sha256:hone" no_storage

ingest_twice_example :
    (ingest codec schemas (draws 1) (envelope "one" "sha256:hone") "org-1" ingested.1
      ≡ some (record ingested.0 { status = "duplicate" }, ingested.1))
    × (Option.map (λ x. x.digest_value) (get_resource ingested.0.resource_id "org-1" ingested.1)
        ≡ some ingested.0.digest_value)
unfolding ingest validate_envelope version_errors type_errors digest_errors verify_digest
    compute_digest without elem field? extract_resource_id extract_digest_value extract_provider_id
    make_resource read_details resource_of Resource.post_init store create_resource persist_payload
    get_resource owned_by get put quarantine conflict_of Integrity.post_init
    create_integrity_conflict
ingest_twice_example =
    ingest_twice codec schemas (draws 0) (draws 1) (envelope "one" "sha256:hone") "org-1" no_storage
      ingested.1 ingested.0 refl refl

abbrev first_resource : DecisionEvidenceResource
first_resource = or_else (get_resource "res-1" "org-1" ingested.1) supporting

abbrev second_ingested : Ingested
second_ingested = received "org-1" "two" "sha256:htwo" ingested.1

ingest_first_wins_example :
    (get_resource "res-1" "org-1" second_ingested.1 ≡ some first_resource)
    × Answer first_resource ingested.1 second_ingested.0 second_ingested.1
unfolding ingest validate_envelope version_errors type_errors digest_errors verify_digest
    compute_digest without elem field? extract_resource_id extract_digest_value extract_provider_id
    make_resource read_details resource_of Resource.post_init store create_resource persist_payload
    get_resource owned_by get put quarantine conflict_of Integrity.post_init
    create_integrity_conflict
ingest_first_wins_example =
    ingest_first_wins codec schemas (draws 0) (envelope "two" "sha256:htwo") "org-1" "res-1"
      ingested.1 second_ingested.1 first_resource second_ingested.0 refl refl refl

abbrev foreign_ingested : Ingested
foreign_ingested = received "org-2" "two" "sha256:htwo" ingested.1

ingest_overwrites_foreign_example : get_resource "res-1" "org-1" foreign_ingested.1 ≡ none
unfolding ingest validate_envelope version_errors type_errors digest_errors verify_digest
    compute_digest without elem field? extract_resource_id extract_digest_value extract_provider_id
    make_resource read_details resource_of Resource.post_init store create_resource persist_payload
    get_resource owned_by get put quarantine conflict_of Integrity.post_init
    create_integrity_conflict
ingest_overwrites_foreign_example =
    ingest_overwrites_foreign codec schemas (draws 0) (envelope "two" "sha256:htwo") "org-2" "org-1"
      "res-1" ingested.1 foreign_ingested.1 first_resource foreign_ingested.0 refl refl refl refl
      refl
