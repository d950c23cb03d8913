-- ===== src/Certificates.antt =====
-- src/notary_platform/certificates.py: a certificate is a dict that is signed over its canonical
-- JSON without the signature, which is ASCII text. The environment, HMAC, and KMS with base64 are in `Signing`.
use notary_platform.Prelude.{
  String, ◌≡◌, refl, ap, ◌∙◌, Bool-cases, inl, inr, Bool, true, false, ◌==◌, eq_refl, Option, some,
  [], ◌∷◌, if◌then◌else◌, ◌<>◌, nonblank, nonblank-append, elem, not, arith,
}
use mathlib.Core.Path.{subst}
use Prim.Native.String.{len, slice}
use package.text.Mathlib.Text.{starts_with}
use package.text.Mathlib.TextPositions.{len-append, slice-append_right, starts_with-append}
use notary_platform.Value.{Value, Fields, end, field, field?, text, bool, obj, as_text, read, ◌>>=◌}
use notary_platform.Protocol.Digest.{Outcome, value, raised, without}

pub record Signing : Type 0 where
  -- json.dumps(payload, sort_keys=True, separators=(",", ":"), ensure_ascii=False)
  pub canonical_json : Fields → String
  -- hmac.new(_DEV_SIGNING_KEY, text, sha256).hexdigest()
  pub hmac : String → String
  -- os.getenv("NOTARY_KMS_KEY_ARN"), blank where it is not set
  pub kms_arn : String
  -- kms.encrypt and base64, kms.decrypt of base64
  pub encrypt : (arn plaintext : String) → Outcome String
  pub decrypt : (arn encoded : String) → Outcome String

unfoldable pub signing_algorithm : Signing → String
signing_algorithm g = if nonblank g.kms_arn then "KMS_ENCRYPT_DECRYPT" else "HMAC-SHA256-DEV"

-- what is signed: every entry but the signature
unfoldable pub signed_text : Signing → Fields → String
unfolding without elem
signed_text g cert = g.canonical_json (without ("signature" ∷ []) cert)

abbrev pub kms_seal : Outcome String → Outcome String
kms_seal (raised message) = raised message
kms_seal (value encoded) = value ("kms:" <> encoded)

unfoldable pub sign : Signing → Fields → Outcome String
unfolding signed_text
sign g cert =
    if nonblank g.kms_arn
    then kms_seal (g.encrypt g.kms_arn (signed_text g cert))
    else value (g.hmac (signed_text g cert))

pub record CertificateRequest : Type 0 where
  pub incident_id : String
  pub original_decision : Value
  pub mutated_decision : Value
  pub fix_config : Fields
  pub certificate_id : String
  pub replay_result : Fields
  pub expected_correct_behavior : String
  pub root_hash : String
  pub integrity_status : String
  pub replay_method : String
  pub verified_outcome : Bool
  pub timestamp : String
  pub claim_scope : String

-- The parameter defaults.
abbrev pub certificate_request :
    (incident_id : String) → (original mutated : Value) → Fields → CertificateRequest
certificate_request incident_id original mutated fix_config = record {
  incident_id = incident_id;
  original_decision = original;
  mutated_decision = mutated;
  fix_config = fix_config;
  certificate_id = "";
  replay_result = end;
  expected_correct_behavior = "";
  root_hash = "";
  integrity_status = "unverified";
  replay_method = "sealed cassette replay";
  verified_outcome = true;
  timestamp = "";
  claim_scope = "";
}

abbrev pub signing_note : Bool → String
signing_note true =
    "KMS-sealed (ENCRYPT_DECRYPT): verifiable server-side only, not a public-key signature"
signing_note false = "Dev HMAC-SHA256: not production-grade, not independently verifiable"

abbrev pub default_scope : String
default_scope =
    "Verified fix for this tested scenario under recorded conditions. Does not certify general AI safety, fairness, regulatory compliance, or outside tested scenario."

abbrev pub or_text : String → String → String
or_text t default = if nonblank t then t else default

-- the certificate before it is signed; the signature goes last
unfoldable pub certificate_with :
    Signing → (proof_hex uuid_hex : String) → CertificateRequest → Fields → Fields
unfolding signing_algorithm
certificate_with g proof_hex uuid_hex r signature =
    field "certificate_id" (text (or_text r.certificate_id ("proof-" <> proof_hex))) (
      field "certificate_type" (text "proof_of_mitigation") (
        field "schema_version" (text "pom-v1") (
          field "incident_id" (text r.incident_id) (
            field "root_hash" (text r.root_hash) (
              field "integrity_status" (text r.integrity_status) (
                field "replay_method" (text r.replay_method) (
                  field "replay_result" (obj r.replay_result) (
                    field "original_decision" r.original_decision (
                      field "mutated_decision" r.mutated_decision (
                        field "fix_config" (obj r.fix_config) (
                          field "expected_correct_behavior" (text r.expected_correct_behavior) (
                            field "verified_outcome" (bool r.verified_outcome) (
                              field "timestamp" (text r.timestamp) (
                                field "signing_algorithm" (text (signing_algorithm g)) (
                                  field "signing_note"
                                    (text
                                      (signing_note (signing_algorithm g == "KMS_ENCRYPT_DECRYPT")))
                                    (field "known_limitations"
                                      (text
                                        "dev-or-KMS signing; not a general AI safety certificate")
                                      (field "claim_scope"
                                        (text (or_text r.claim_scope default_scope))
                                        (field "certificate_uuid" (text uuid_hex)
                                          signature))))))))))))))))))

abbrev pub signed_by :
    Signing → (proof_hex uuid_hex : String) → CertificateRequest → Outcome String → Outcome Fields
signed_by g proof_hex uuid_hex r (raised message) = raised message
signed_by g proof_hex uuid_hex r (value signature) =
    value (certificate_with g proof_hex uuid_hex r (field "signature" (text signature) end))

-- `cert["signature"] = _sign(cert)`, a key that `cert` has not yet
unfoldable pub generate_certificate :
    Signing → (proof_hex uuid_hex : String) → CertificateRequest → Outcome Fields
unfolding certificate_with sign
generate_certificate g proof_hex uuid_hex r =
    signed_by g proof_hex uuid_hex r (sign g (certificate_with g proof_hex uuid_hex r end))

abbrev pub same_plaintext : String → Outcome String → Bool
same_plaintext canonical (raised message) = false
same_plaintext canonical (value plaintext) = plaintext == canonical

abbrev pub verify_sealed : Signing → String → String → Bool
verify_sealed g canonical sig =
    if not (nonblank g.kms_arn)
    then false
    else same_plaintext canonical (g.decrypt g.kms_arn (slice sig 4 (len sig)))

abbrev pub verify_signed : Signing → String → String → Bool
verify_signed g canonical sig =
    if not (nonblank sig)
    then false
    else if starts_with sig "kms:"
    then verify_sealed g canonical sig
    else sig == g.hmac canonical

-- `none`: the signature is no text
unfoldable pub verify_certificate_signature : Signing → Fields → Option Bool
unfolding field? signed_text
verify_certificate_signature g cert = do
  sig ← read as_text (field? "signature" cert) ""
  some (verify_signed g (signed_text g cert) sig)

-- What the code relies on: an HMAC in hexadecimal is neither blank nor has the prefix of a seal, and
-- KMS decrypts what it encrypted.
pub record Sealing (g : Signing) : Type 0 where
  pub hex_given : (t : String) → nonblank (g.hmac t) ≡ true
  pub hex_plain : (t : String) → starts_with (g.hmac t) "kms:" ≡ false
  pub decrypts : (t e : String) → g.encrypt g.kms_arn t ≡ value e → g.decrypt g.kms_arn e ≡ value t

-- text[4:] of a seal is what was sealed
seal_rest : (e : String) → slice ("kms:" <> e) 4 (len ("kms:" <> e)) ≡ e
seal_rest e = ap (slice ("kms:" <> e) 4) (len-append "kms:" e) ∙ slice-append_right "kms:" e

value-injective : {A : Type 0} (d a b : A) → value a ≡ value b → a ≡ b
value-injective d a b h = ap (got d) h
  where
    got : {A : Type 0} → A → Outcome A → A
    got d (value a) = a
    got d (raised message) = d

seal-verify_signed :
    (g : Signing) (laws : Sealing g) (canonical sig : String) (sealed : Outcome String)
    → nonblank g.kms_arn ≡ true
    → g.encrypt g.kms_arn canonical ≡ sealed
    → kms_seal sealed ≡ value sig
    → verify_signed g canonical sig ≡ true
seal-verify_signed g laws canonical sig (raised message) arn e h = absurd (ground arith)
seal-verify_signed g laws canonical sig (value e) arn made h =
    subst (λ t. verify_signed g canonical t ≡ true) (value-injective "" _ _ h)
      (rw (
        nonblank-append "kms:" e refl,
        starts_with-append "kms:" e,
        arn,
        seal_rest e,
        laws.decrypts canonical e made,
        eq_refl canonical,
      ))

-- a signature that was made verifies
sign-verify_signed :
    (g : Signing) (laws : Sealing g) (cert : Fields) (sig : String)
    → sign g cert ≡ value sig
    → verify_signed g (signed_text g cert) sig ≡ true
unfolding sign
sign-verify_signed g laws cert sig h = elim (Bool-cases (nonblank g.kms_arn)) [
  | inl arn ↦ seal-verify_signed g laws (signed_text g cert) sig _ arn refl (rw arn at h)
  | inr dev ↦
      let made : value (g.hmac (signed_text g cert)) ≡ value sig = rw dev at h in
      subst (λ t. verify_signed g (signed_text g cert) t ≡ true) (value-injective "" _ _ made)
        (rw (
          laws.hex_given (signed_text g cert),
          laws.hex_plain (signed_text g cert),
          eq_refl (g.hmac (signed_text g cert)),
        ))
]

signed_by-verify :
    (g : Signing) (laws : Sealing g) (proof_hex uuid_hex : String) (r : CertificateRequest)
    (sig : Outcome String) (cert : Fields)
    → sign g (certificate_with g proof_hex uuid_hex r end) ≡ sig
    → signed_by g proof_hex uuid_hex r sig ≡ value cert
    → verify_certificate_signature g cert ≡ some true
unfolding verify_certificate_signature signed_text certificate_with field? without elem
signed_by-verify g laws proof_hex uuid_hex r (raised message) cert made h = absurd (ground arith)
signed_by-verify g laws proof_hex uuid_hex r (value sig) cert made h =
    subst (λ c. verify_certificate_signature g c ≡ some true) (value-injective end _ _ h)
      (ap some (sign-verify_signed g laws (certificate_with g proof_hex uuid_hex r end) sig made))

-- A certificate verifies under the signing it was made with, sealed by KMS or by the development
-- key, where that signing satisfies `Sealing`.
pub generate-verify :
    (g : Signing) (laws : Sealing g) (proof_hex uuid_hex : String) (r : CertificateRequest)
    (cert : Fields)
    → generate_certificate g proof_hex uuid_hex r ≡ value cert
    → verify_certificate_signature g cert ≡ some true
unfolding generate_certificate
generate-verify g laws proof_hex uuid_hex r cert h =
    signed_by-verify g laws proof_hex uuid_hex r
      (sign g (certificate_with g proof_hex uuid_hex r end)) cert refl h
