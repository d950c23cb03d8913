-- ===== src/Discovery/Ingress/Writes.antt =====
-- What `ingest` of src/notary_platform/discovery/ingress.py writes, and what a second call finds.
use notary_platform.Prelude.{
  String, ◌≡◌, sym, ap, ◌∙◌, true, false, ◌==◌, eq_iff, none, some, [], if◌then◌else◌, nonblank,
}
use mathlib.Core.Path.{subst}
use mathlib.Core.Option
use mathlib.Core.Option.{some-injective}
use notary_platform.Value.{Fields, Draw}
use notary_platform.Dict.{get, put, get-put_self}
use notary_platform.Records.Resource.{DecisionEvidenceResource}
use notary_platform.Storage.{
  MemoryStorage, get_resource, owned_by, create_resource, persist_payload,
}
use notary_platform.Protocol.Digest.{Codec, text_at}
use notary_platform.Protocol.Validation.{Schemas, validate_envelope}
use notary_platform.Discovery.Context.Selection.{chained}
use notary_platform.Discovery.Ingress.Answers.{Answer, checked-Answer, Answer-resources}
use notary_platform.Discovery.Ingress.{
  IngestionReceipt, receipt, extract_resource_id, extract_digest_value, store, ingest,
}
use notary_platform.Discovery.Ingress.Accepted.{
  make_resource-IsOf, get_resource-store, ingest-Accepted,
}

found_again :
    (codec : Codec) (schemas : Schemas) (draw later : Draw) (envelope : Fields)
    (org_id resource_id digest envelope_id : String) (s : MemoryStorage)
    (x : DecisionEvidenceResource)
    → validate_envelope codec schemas envelope ≡ some []
    → extract_resource_id envelope ≡ some resource_id
    → nonblank resource_id ≡ true
    → extract_digest_value envelope ≡ some digest
    → text_at "id" "" envelope ≡ some envelope_id
    → get_resource resource_id org_id s ≡ some x
    → (x.digest_value == digest) ≡ true
    → ingest codec schemas later envelope org_id s
      ≡ some (receipt resource_id "duplicate" envelope_id digest, s)
unfolding ingest
found_again codec schemas draw later envelope org_id resource_id digest envelope_id s x valid id
      given dig named found same =
    rw (valid, id, given, dig, found, same, named)

-- An accepted envelope is stored: the organization finds its resource, with the digest of the receipt.
-- A second ingestion of the same envelope is a duplicate with the same receipt otherwise, and it
-- changes nothing.
pub ingest_twice :
    (codec : Codec) (schemas : Schemas) (draw later : Draw) (envelope : Fields) (org_id : String)
    (s s' : MemoryStorage) (r : IngestionReceipt)
    → ingest codec schemas draw envelope org_id s ≡ some (r, s')
    → r.status ≡ "accepted"
    → (ingest codec schemas later envelope org_id s' ≡ some (record r { status = "duplicate" }, s'))
      × (Option.map (λ x. x.digest_value) (get_resource r.resource_id org_id s')
          ≡ some r.digest_value)
ingest_twice codec schemas draw later envelope org_id s s' r h accepted =
    let a = ingest-Accepted codec schemas draw envelope org_id s s' r accepted h in
    let of =
      make_resource-IsOf draw envelope org_id a.resource_id a.digest a.resource a.extracted
        a.digested a.given a.made in
    let found : get_resource a.resource_id org_id s' ≡ some a.resource =
      subst (λ t. get_resource a.resource_id org_id t ≡ some a.resource) a.stored
        (get_resource-store envelope org_id a.resource_id a.digest a.resource s of) in
    subst
      (λ q.
        (ingest codec schemas later envelope org_id s'
          ≡ some (record q { status = "duplicate" }, s'))
        × (Option.map (λ x. x.digest_value) (get_resource q.resource_id org_id s')
            ≡ some q.digest_value))
      a.received
      (
        found_again codec schemas draw later envelope org_id a.resource_id a.digest a.envelope_id s'
            a.resource a.valid a.extracted a.given a.digested a.named found
            ((eq_iff _ _).1 of.same_digest),
        ap (Option.map (λ x. x.digest_value)) found ∙ ap (λ d. some d) of.same_digest,
      )

-- A resource that the organization has stays: whatever envelope with its id is ingested, valid or
-- not, an answer finds the same resource afterwards. The answer is a rejection, or a duplicate where
-- the digest is the one that is there, both with an unchanged storage, or a quarantine where it is
-- another, with unchanged resources and payloads and a stored conflict that names both digests.
pub ingest_first_wins :
    (codec : Codec) (schemas : Schemas) (draw : Draw) (envelope : Fields)
    (org_id resource_id : String) (s s' : MemoryStorage) (old : DecisionEvidenceResource)
    (r : IngestionReceipt)
    → extract_resource_id envelope ≡ some resource_id
    → get_resource resource_id org_id s ≡ some old
    → ingest codec schemas draw envelope org_id s ≡ some (r, s')
    → (get_resource resource_id org_id s' ≡ some old) × Answer old s r s'
unfolding ingest get_resource
ingest_first_wins codec schemas draw envelope org_id resource_id s s' old r id found h =
    let (errors, validated, rest) =
      chained (validate_envelope codec schemas envelope) _ (r, s') h in
    let answer = checked-Answer draw envelope org_id resource_id s s' old r errors id found rest in
    let kept = Answer-resources draw envelope org_id resource_id s s' old r answer in
    (ap (λ m. owned_by org_id (get resource_id m)) kept ∙ found, answer)

-- An accepted ingestion of a resource id that another organization has takes the resource away: that
-- organization no longer finds it.
pub ingest_overwrites_foreign :
    (codec : Codec) (schemas : Schemas) (draw : Draw) (envelope : Fields)
    (org_id owner resource_id : String) (s s' : MemoryStorage) (theirs : DecisionEvidenceResource)
    (r : IngestionReceipt)
    → get_resource resource_id owner s ≡ some theirs
    → (org_id == owner) ≡ false
    → extract_resource_id envelope ≡ some resource_id
    → ingest codec schemas draw envelope org_id s ≡ some (r, s')
    → r.status ≡ "accepted"
    → get_resource resource_id owner s' ≡ none
unfolding get_resource owned_by store create_resource persist_payload
ingest_overwrites_foreign codec schemas draw envelope org_id owner resource_id s s' theirs r
      theirs_found foreign id h accepted =
    let a = ingest-Accepted codec schemas draw envelope org_id s s' r accepted h in
    let of =
      make_resource-IsOf draw envelope org_id a.resource_id a.digest a.resource a.extracted
        a.digested a.given a.made in
    let same : a.resource_id ≡ resource_id = some-injective _ _ (sym a.extracted ∙ id) in
    let stored : get resource_id (put a.resource.resource_id a.resource s.resources)
        ≡ some a.resource =
      subst (λ k. get k (put a.resource.resource_id a.resource s.resources) ≡ some a.resource)
        (of.id ∙ same) (get-put_self a.resource.resource_id a.resource s.resources) in
    let other : (a.resource.org_id == owner) ≡ false = ap (λ o. o == owner) of.own ∙ foreign in
    subst (λ t. owned_by owner (get resource_id t.resources) ≡ none) a.stored
      (ap (owned_by owner) stored ∙ ap (λ b. if b then some a.resource else none) other)
