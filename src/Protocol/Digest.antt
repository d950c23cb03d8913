-- ===== src/Protocol/Digest.antt =====
-- `compute_digest` and `verify_digest` of src/notary_platform/dep/canonical.py. Canonical JSON text,
-- the hash of a text in unpadded base64url, and the texts of what is raised are in `Codec`.
use notary_platform.Prelude.{
  String, ◌≡◌, Bool, true, ◌==◌, eq_refl, Option, none, some, List, [], ◌∷◌, if◌then◌else◌, ◌<>◌,
  elem,
}
use notary_platform.Value.{Fields, end, field, field?, obj, text, as_fields, as_text, read}

-- A value, or what the exception that was raised says.
pub data Outcome (A : Type 0) : Type 0 where
  value : A → Outcome A
  raised : (message : String) → Outcome A

pub record Codec : Type 0 where
  -- json.dumps(data, sort_keys=True, separators=(",", ":"))
  pub canonical_json : Fields → String
  -- hashlib.new(algorithm, text): an unknown algorithm raises
  pub hash : (algorithm canonical : String) → Outcome String
  -- what reading a key of something that is no dict raises
  pub not_a_dict : String

-- data.get(key, {}), which must be a dict to be read further
abbrev pub inner : String → Fields → Option Fields
inner key d = read as_fields (field? key d) end

-- data.get(key, default) where the caller goes on with a text
abbrev pub text_at : String → String → Fields → Option String
text_at key default d = read as_text (field? key d) default

-- {k: v for k, v in data.items() if k not in keys}
unfoldable pub without : List String → Fields → Fields
unfolding elem
without keys end = end
without keys (field k v rest) =
    let others = without keys rest in if elem k keys then others else field k v others

abbrev pub tagged : String → Outcome String → Outcome String
tagged algorithm (value encoded) = value (algorithm <> ":" <> encoded)
tagged algorithm (raised message) = raised message

unfoldable pub compute_digest : Codec → Fields → String → Outcome String
unfolding without elem
compute_digest codec data_ algorithm =
    tagged algorithm
      (codec.hash algorithm (codec.canonical_json (without ("digest" ∷ "signature" ∷ []) data_)))

abbrev pub same_digest : Outcome String → String → Outcome Bool
same_digest (value expected) declared = value (expected == declared)
same_digest (raised message) declared = raised message

abbrev pub verify_declared : Codec → Fields → Option String → Option String → Outcome Bool
verify_declared codec envelope (some algorithm) (some declared) =
    same_digest (compute_digest codec envelope algorithm) declared
verify_declared codec envelope _ _ = raised codec.not_a_dict

abbrev pub verify_inner : Codec → Fields → Option Fields → Outcome Bool
verify_inner codec envelope none = raised codec.not_a_dict
verify_inner codec envelope (some declared) =
    verify_declared codec envelope (text_at "algorithm" "sha256" declared)
      (text_at "value" "" declared)

unfoldable pub verify_digest : Codec → Fields → Outcome Bool
unfolding field? compute_digest
verify_digest codec envelope = verify_inner codec envelope (inner "digest" envelope)

-- the envelope with the declared digest `algorithm`, `digest`
abbrev pub declaring : (algorithm digest : String) → Fields → Fields
declaring algorithm digest envelope =
    field "digest" (obj (field "algorithm" (text algorithm) (field "value" (text digest) end)))
      envelope

-- An envelope that declares the digest computed from it is verified: the digest and the signature
-- are no part of what is digested.
pub verify_digest-declaring :
    (codec : Codec) (envelope : Fields) (algorithm digest : String)
    → compute_digest codec envelope algorithm ≡ value digest
    → verify_digest codec (declaring algorithm digest envelope) ≡ value true
unfolding verify_digest compute_digest
verify_digest-declaring codec envelope algorithm digest h = rw (h, eq_refl digest)
