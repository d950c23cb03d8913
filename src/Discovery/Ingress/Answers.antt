-- ===== src/Discovery/Ingress/Answers.antt =====
-- How `ingest` of src/notary_platform/discovery/ingress.py answers an envelope for a resource that the
-- organization has.
use notary_platform.Prelude.{
  String, ◌≡◌, refl, ap, ◌⊎◌, false, ◌==◌, eq_iff, Bool-cases, inl, inr, some, List, [], ◌∷◌, map,
  nonblank,
}
use mathlib.Core.Path.{subst}
use mathlib.Core.Option.{some-injective}
use notary_platform.Value.{Fields, Draw}
use notary_platform.Dict.{get, get-put_self}
use notary_platform.Records.Resource.{DecisionEvidenceResource}
use notary_platform.Records.Integrity
use notary_platform.Records.Integrity.{IntegrityConflict}
use notary_platform.Storage.{MemoryStorage, get_resource, create_integrity_conflict}
use notary_platform.Protocol.Digest.{text_at}
use notary_platform.Protocol.Validation.{DepError}
use notary_platform.Discovery.Context.Selection.{chained}
use notary_platform.Discovery.Ingress.{
  IngestionReceipt, rejected, missing_resource_id, error_dict, conflict_of, extract_resource_id,
  extract_provider_id, extract_digest_value, quarantine, ingest_found, ingest_valid, ingest_checked,
}

-- The conflict that the receipt of a quarantined envelope names: it is stored, and holds the digest of
-- the resource that was there and the one of the envelope.
pub record Recorded (old : DecisionEvidenceResource) (r : IngestionReceipt) (s' : MemoryStorage)
    : Type 0 where
  pub conflict : IntegrityConflict
  pub stored : get r.conflict_id s'.integrity_conflicts ≡ some conflict
  pub existing : conflict.existing_digest ≡ old.digest_value
  pub conflicting : conflict.conflicting_digest ≡ r.digest_value

-- The answer to an envelope for a resource that is there: rejected, a duplicate, or quarantined.
abbrev pub Answer :
    DecisionEvidenceResource → MemoryStorage → IngestionReceipt → MemoryStorage → Type 0
Answer old s r s' =
    ((r.status ≡ "rejected") × (s' ≡ s))
    ⊎ (((r.status ≡ "duplicate") × (old.digest_value ≡ r.digest_value) × (s' ≡ s))
        ⊎ ((r.status ≡ "quarantined")
            × ((old.digest_value == r.digest_value) ≡ false)
            × (s'.resources ≡ s.resources)
            × (s'.payloads ≡ s.payloads)
            × Recorded old r s'))

module _ (draw : Draw) (envelope : Fields) (org_id resource_id : String) (s s' : MemoryStorage)
    (old : DecisionEvidenceResource) (r : IngestionReceipt) where
  quarantine-Answer :
      (provider_id envelope_id digest : String)
      → (old.digest_value == digest) ≡ false
      → quarantine draw org_id resource_id provider_id envelope_id old.digest_value digest s
        ≡ (r, s')
      → Answer old s r s'
  unfolding quarantine conflict_of Integrity.post_init create_integrity_conflict
  quarantine-Answer provider_id envelope_id digest differs done =
      subst (λ p. Answer old s p.0 p.1) done
        (inr (
          inr (
            refl,
            differs,
            refl,
            refl,
            record {
              conflict = conflict_of draw org_id resource_id provider_id old.digest_value digest;
              stored = get-put_self _ _ s.integrity_conflicts;
              existing = refl;
              conflicting = refl;
            },
          )))

  found-Answer :
      (digest : String)
      → ingest_found draw envelope org_id resource_id digest s (some old) ≡ some (r, s')
      → Answer old s r s'
  found-Answer digest h = elim (Bool-cases (old.digest_value == digest)) [
    | inl same ↦
        let (envelope_id, named, done) =
          chained (text_at "id" "" envelope) _ (r, s') (rw same at h) in
        subst (λ p. Answer old s p.0 p.1) (some-injective _ _ done)
          (inr (inl (refl, (eq_iff _ _).0 same, refl)))
    | inr differs ↦
        let (provider_id, provided, rest) =
          chained (extract_provider_id envelope) _ (r, s') (rw differs at h) in
        let (envelope_id, named, done) = chained (text_at "id" "" envelope) _ (r, s') rest in
        quarantine-Answer provider_id envelope_id digest differs (some-injective _ _ done)
  ]

  valid-Answer :
      get_resource resource_id org_id s ≡ some old
      → ingest_valid draw envelope org_id resource_id s ≡ some (r, s')
      → Answer old s r s'
  valid-Answer found h = elim (Bool-cases (nonblank resource_id)) [
    | inl given ↦
        let (digest, read, rest) =
          chained (extract_digest_value envelope) _ (r, s') (rw given at h) in
        found-Answer digest (rw found at rest)
    | inr blank ↦
        let done : some (rejected "" (missing_resource_id ∷ []), s) ≡ some (r, s') =
          rw blank at h in
        subst (λ p. Answer old s p.0 p.1) (some-injective _ _ done) (inl (refl, refl))
  ]

  pub checked-Answer :
      (errors : List DepError)
      → extract_resource_id envelope ≡ some resource_id
      → get_resource resource_id org_id s ≡ some old
      → ingest_checked draw envelope org_id s errors ≡ some (r, s')
      → Answer old s r s'
  checked-Answer [] id found h = valid-Answer found (rw id at h)
  checked-Answer (e ∷ errors) id found h =
      let done : some (rejected resource_id (map error_dict (e ∷ errors)), s) ≡ some (r, s') =
        rw id at h in
      subst (λ p. Answer old s p.0 p.1) (some-injective _ _ done) (inl (refl, refl))

  pub Answer-resources : Answer old s r s' → s'.resources ≡ s.resources
  Answer-resources (inl (status, same)) = ap (λ t. t.resources) same
  Answer-resources (inr (inl (status, digest, same))) = ap (λ t. t.resources) same
  Answer-resources (inr (inr (status, differs, same, payloads, conflict))) = same
