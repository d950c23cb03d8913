-- ===== src/Discovery/Ingress/Accepted.antt =====
-- What an accepted ingestion of src/notary_platform/discovery/ingress.py has read and stored.
use notary_platform.Prelude.{
  String, ◌≡◌, refl, sym, ap, ◌∙◌, true, false, ◌==◌, eq_iff, Bool-cases, Option-cases, inl, inr,
  Option, none, some, List, [], ◌∷◌, if◌then◌else◌, ◌<>◌, nonblank, arith,
}
use mathlib.Core.Path.{subst}
use mathlib.Core.Option.{some-injective}
use notary_platform.Value.{Value, Fields, field?, Draw, ◌>>=◌, read, as_text}
use notary_platform.Dict.{get, put, get-put_self}
use notary_platform.Records.Resource.{DecisionEvidenceResource}
use notary_platform.Storage.{
  MemoryStorage, get_resource, owned_by, create_resource, persist_payload,
}
use notary_platform.Protocol.Digest.{Codec, text_at}
use notary_platform.Protocol.Validation.{DepError, Schemas, validate_envelope}
use notary_platform.Discovery.Ingress.{
  accept, Details, read_details, resource_of, make_texts, make_parts, IngestionReceipt, Ingested,
  receipt, extract_resource_id, extract_provider_id, extract_digest_value, make_resource, store,
  quarantine, ingest_found, ingest_checked, ingest,
}

-- the stored resource carries the id, the organization and the digest that were read
pub record IsOf (org_id resource_id digest : String) (r : DecisionEvidenceResource) : Type 0 where
  pub id : r.resource_id ≡ resource_id
  pub own : r.org_id ≡ org_id
  pub same_digest : r.digest_value ≡ digest
  pub payload : r.payload_ref ≡ "dep://payload/" <> resource_id

read_default :
    (o : Option Value) (found other : String)
    → read as_text o "" ≡ some found
    → nonblank found ≡ true
    → read as_text o other ≡ some found
read_default none found other h given =
    let blank : nonblank "" ≡ true =
      subst (λ t. nonblank t ≡ true) (sym (some-injective _ _ h)) given in
    absurd (ground arith)
read_default (some v) found other h given = h

module _ (draw : Draw) (envelope : Fields) (org_id resource_id digest : String)
    (r : DecisionEvidenceResource) where
  make_texts-IsOf :
      (details : Option Details)
      → make_texts draw org_id (some resource_id) (some digest) details ≡ some r
      → IsOf org_id resource_id digest r
  unfolding resource_of
  make_texts-IsOf none made = absurd (ground arith)
  make_texts-IsOf (some details) made =
      subst (IsOf org_id resource_id digest) (some-injective _ _ made)
        (record { id = refl; own = refl; same_digest = refl; payload = refl })

  make_parts-IsOf :
      (res dig prov : Option Fields)
      → (res >>= text_at "id" "") ≡ some resource_id
      → (dig >>= text_at "value" "") ≡ some digest
      → nonblank resource_id ≡ true
      → make_parts draw envelope org_id res dig prov ≡ some r
      → IsOf org_id resource_id digest r
  make_parts-IsOf none dig prov hid hdig given made = absurd (ground arith)
  make_parts-IsOf (some res) none prov hid hdig given made = absurd (ground arith)
  make_parts-IsOf (some res) (some dig) none hid hdig given made = absurd (ground arith)
  make_parts-IsOf (some res) (some dig) (some prov) hid hdig given made =
      make_texts-IsOf (read_details envelope res dig prov) (
        rw (read_default (field? "id" res) resource_id ("res-" <> draw.hex) hid given, hdig) at
          made)

  pub make_resource-IsOf :
      extract_resource_id envelope ≡ some resource_id
      → extract_digest_value envelope ≡ some digest
      → nonblank resource_id ≡ true
      → make_resource draw envelope org_id ≡ some r
      → IsOf org_id resource_id digest r
  unfolding make_resource extract_resource_id extract_digest_value
  make_resource-IsOf hid hdig given made = make_parts-IsOf _ _ _ hid hdig given made

pub get_resource-store :
    (envelope : Fields) (org_id resource_id digest : String) (x : DecisionEvidenceResource)
    (s : MemoryStorage)
    → IsOf org_id resource_id digest x
    → get_resource resource_id org_id (store envelope x s) ≡ some x
unfolding get_resource owned_by store create_resource persist_payload
get_resource-store envelope org_id resource_id digest x s of =
    let stored : get resource_id (put x.resource_id x s.resources) ≡ some x =
      subst (λ k. get k (put x.resource_id x s.resources) ≡ some x) of.id
        (get-put_self x.resource_id x s.resources) in
    let own : (x.org_id == org_id) ≡ true = (eq_iff _ _).1 of.own in
    ap (owned_by org_id) stored ∙ ap (λ b. if b then some x else none) own

-- What an accepted envelope is, and what was stored for it.
pub record Accepted (codec : Codec) (schemas : Schemas) (draw : Draw) (envelope : Fields)
    (org_id : String) (s : MemoryStorage) (r : IngestionReceipt) (s' : MemoryStorage) : Type 0 where
  pub resource_id : String
  pub digest : String
  pub envelope_id : String
  pub resource : DecisionEvidenceResource
  pub valid : validate_envelope codec schemas envelope ≡ some []
  pub extracted : extract_resource_id envelope ≡ some resource_id
  pub given : nonblank resource_id ≡ true
  pub digested : extract_digest_value envelope ≡ some digest
  pub named : text_at "id" "" envelope ≡ some envelope_id
  pub new : get_resource resource_id org_id s ≡ none
  pub made : make_resource draw envelope org_id ≡ some resource
  pub received : receipt resource_id "accepted" envelope_id digest ≡ r
  pub stored : store envelope resource s ≡ s'

abbrev status_of : Option Ingested → String
status_of none = ""
status_of (some (r, s)) = r.status

refuted :
    (m : Option Ingested) (r : IngestionReceipt) (s : MemoryStorage)
    → (status_of m == "accepted") ≡ false
    → r.status ≡ "accepted"
    → m ≡ some (r, s)
    → ⊥
refuted m r s other accepted h =
    let same : (status_of m == "accepted") ≡ true = (eq_iff _ _).1 (ap status_of h ∙ accepted) in
    ground arith

found_other :
    (draw : Draw) (envelope : Fields) (org_id resource_id digest : String) (s : MemoryStorage)
    (old : DecisionEvidenceResource)
    → (status_of (ingest_found draw envelope org_id resource_id digest s (some old)) == "accepted")
      ≡ false
unfolding quarantine
found_other draw envelope org_id resource_id digest s old =
    elim (Bool-cases (old.digest_value == digest)) [
      | inl same ↦ elim (Option-cases (text_at "id" "" envelope)) [
        | inl e ↦ rw (same, e)
        | inr (eid, e) ↦ rw (same, e)
      ]
      | inr other ↦ elim (Option-cases (extract_provider_id envelope)) [
        | inl p ↦ rw (other, p)
        | inr (pid, p) ↦ elim (Option-cases (text_at "id" "" envelope)) [
          | inl e ↦ rw (other, p, e)
          | inr (eid, e) ↦ rw (other, p, e)
        ]
      ]
    ]

module _ (codec : Codec) (schemas : Schemas) (draw : Draw) (envelope : Fields) (org_id : String)
    (s s' : MemoryStorage) (r : IngestionReceipt) (accepted : r.status ≡ "accepted") where
  Accepted-new :
      (resource_id digest : String) (made : Option DecisionEvidenceResource) (named : Option String)
      → validate_envelope codec schemas envelope ≡ some []
      → extract_resource_id envelope ≡ some resource_id
      → nonblank resource_id ≡ true
      → extract_digest_value envelope ≡ some digest
      → get_resource resource_id org_id s ≡ none
      → make_resource draw envelope org_id ≡ made
      → text_at "id" "" envelope ≡ named
      → accept envelope resource_id digest s made named ≡ some (r, s')
      → Accepted codec schemas draw envelope org_id s r s'
  Accepted-new resource_id digest none named valid id given hdig found hmade hnamed h =
      absurd (ground arith)
  Accepted-new resource_id digest (some x) none valid id given hdig found hmade hnamed h =
      absurd (ground arith)
  Accepted-new resource_id digest (some x) (some eid) valid id given hdig found hmade hnamed h =
      let both = some-injective _ _ h in
      record {
        resource_id = resource_id;
        digest = digest;
        envelope_id = eid;
        resource = x;
        valid = valid;
        extracted = id;
        given = given;
        digested = hdig;
        named = hnamed;
        new = found;
        made = hmade;
        received = ap (λ p. p.0) both;
        stored = ap (λ p. p.1) both;
      }

  Accepted-found :
      (resource_id digest : String) (found : Option DecisionEvidenceResource)
      → validate_envelope codec schemas envelope ≡ some []
      → extract_resource_id envelope ≡ some resource_id
      → nonblank resource_id ≡ true
      → extract_digest_value envelope ≡ some digest
      → get_resource resource_id org_id s ≡ found
      → ingest_found draw envelope org_id resource_id digest s found ≡ some (r, s')
      → Accepted codec schemas draw envelope org_id s r s'
  Accepted-found resource_id digest (some old) valid id given hdig found h =
      absurd (refuted _ r s' (found_other draw envelope org_id resource_id digest s old) accepted h)
  Accepted-found resource_id digest none valid id given hdig found h =
      Accepted-new resource_id digest _ _ valid id given hdig found refl refl h

  Accepted-digest :
      (resource_id : String) (digest : Option String)
      → validate_envelope codec schemas envelope ≡ some []
      → extract_resource_id envelope ≡ some resource_id
      → nonblank resource_id ≡ true
      → extract_digest_value envelope ≡ digest
      → (digest >>= λ d.
          ingest_found draw envelope org_id resource_id d s (get_resource resource_id org_id s))
        ≡ some (r, s')
      → Accepted codec schemas draw envelope org_id s r s'
  Accepted-digest resource_id none valid id given hdig h = absurd (ground arith)
  Accepted-digest resource_id (some d) valid id given hdig h =
      Accepted-found resource_id d _ valid id given hdig refl h

  Accepted-checked :
      (errors : List DepError) (id : Option String)
      → validate_envelope codec schemas envelope ≡ some errors
      → extract_resource_id envelope ≡ id
      → ingest_checked draw envelope org_id s errors ≡ some (r, s')
      → Accepted codec schemas draw envelope org_id s r s'
  Accepted-checked [] none valid hid h = absurd (let h' = rw hid at h in ground arith)
  Accepted-checked [] (some id) valid hid h = elim (Bool-cases (nonblank id)) [
    | inl given ↦ Accepted-digest id _ valid hid given refl (rw (hid, given) at h)
    | inr blank ↦ absurd (refuted _ r s' refl accepted (rw (hid, blank) at h))
  ]
  Accepted-checked (e ∷ errors) none valid hid h = absurd (let h' = rw hid at h in ground arith)
  Accepted-checked (e ∷ errors) (some id) valid hid h =
      absurd (refuted _ r s' refl accepted (rw hid at h))

  Accepted-ingest :
      (errors : Option (List DepError))
      → validate_envelope codec schemas envelope ≡ errors
      → (errors >>= ingest_checked draw envelope org_id s) ≡ some (r, s')
      → Accepted codec schemas draw envelope org_id s r s'
  Accepted-ingest none valid h = absurd (ground arith)
  Accepted-ingest (some errors) valid h = Accepted-checked errors _ valid refl h

  pub ingest-Accepted :
      ingest codec schemas draw envelope org_id s ≡ some (r, s')
      → Accepted codec schemas draw envelope org_id s r s'
  unfolding ingest
  ingest-Accepted h = Accepted-ingest _ refl h
