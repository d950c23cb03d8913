-- ===== src/Snapshots.antt =====
-- The sealed snapshots of src/notary_platform/snapshot.py: the chain of seals, the root of the hashes
-- and the verification. A root hash is ASCII text, which `compare_digest` asks for. Bytes, HMAC, SHA-256, hexadecimal text and canonical JSON are in `Hashing`.
-- The theorems are in the modules below.
pub mod Roots
pub mod Seals
use notary_platform.Prelude.{
  ℕ, zero, suc, String, Bool, true, false, not, ◌||◌, ◌==◌, Option, none, some, List, [], ◌∷◌,
  length, nonempty, nonblank, nat_eq, if◌then◌else◌,
}
use notary_platform.Value.{Fields}

pub record CapturedElement : Type 0 where
  pub kind : String
  pub payload : Fields
  pub element_hash : String

pub record ForensicSnapshot : Type 0 where
  pub schema_version : ℕ
  pub timestamp : String
  pub elements : List CapturedElement
  pub merkle_chain : List String
  pub root_hash : String

pub record Hashing (B : Type 0) : Type 0 where
  -- b"\x00" * 32
  pub zeros : B
  -- len(b)
  pub size : B → ℕ
  -- hmac.new(key, prev + data, sha256).digest()
  pub hmac : (key prev content : B) → B
  -- sha256(left + right).digest()
  pub sha256 : (left right : B) → B
  pub hex : B → String
  -- bytes.fromhex, `none` where it raises
  pub from_hex : String → Option B
  -- hmac.compare_digest
  pub same : B → B → Bool
  -- json.dumps of kind and payload, encoded
  pub canonical_json : (kind : String) → Fields → B

module _ {B : Type 0} (g : Hashing B) where
  abbrev pub canonical_bytes : CapturedElement → B
  canonical_bytes e = g.canonical_json e.kind e.payload

  abbrev pub seal_element : (prev content key : B) → B
  seal_element prev content key = g.hmac key prev content

  -- one round: the hashes in pairs, the last one with itself where it has no partner
  unfoldable pub next_round : List B → List B
  next_round [] = []
  next_round (left ∷ []) = g.sha256 left left ∷ []
  next_round (left ∷ right ∷ rest) = g.sha256 left right ∷ next_round rest

  -- the rounds until one hash is left
  unfoldable pub root_of : ℕ → List B → Option B
  unfolding next_round
  root_of fuel [] = none
  root_of fuel (h ∷ []) = some h
  root_of zero (h ∷ h' ∷ rest) = none
  root_of (suc fuel) (h ∷ h' ∷ rest) = root_of fuel (next_round (h ∷ h' ∷ rest))

  abbrev pub hex_of : Option B → Option String
  hex_of none = none
  hex_of (some h) = some (g.hex h)

  -- `none` is the ValueError; each round leaves fewer hashes
  unfoldable pub compute_root_hash : List B → Option String
  unfolding root_of
  compute_root_hash hashes = hex_of (root_of (length hashes) hashes)

  abbrev pub and_hashes : B → Option (List B) → Option (List B)
  and_hashes h none = none
  and_hashes h (some hashes) = some (h ∷ hashes)

  abbrev pub stored_is : B → Option B → Bool
  stored_is recomputed none = false
  stored_is recomputed (some stored) =
      if not (nat_eq (g.size stored) 32) then false else g.same recomputed stored

  abbrev pub element_is : B → CapturedElement → Bool
  element_is recomputed e =
      if not (nonblank e.element_hash)
      then false
      else stored_is recomputed (g.from_hex e.element_hash)

  -- the loop over the elements: the recomputed hashes, or `none` where it returns False
  unfoldable pub verify_elements : (key prev : B) → List CapturedElement → Option (List B)
  verify_elements key prev [] = some []
  verify_elements key prev (e ∷ rest) =
      let recomputed = seal_element prev (canonical_bytes e) key in
      let others = verify_elements key recomputed rest in
      if element_is recomputed e then and_hashes recomputed others else none

  abbrev pub root_is : String → Option String → Bool
  root_is root_hash none = false
  root_is root_hash (some recomputed) = recomputed == root_hash

  abbrev pub verify_root : String → Option (List B) → Bool
  verify_root root_hash none = false
  verify_root root_hash (some hashes) =
      if not (nonblank root_hash) then false else root_is root_hash (compute_root_hash hashes)

  unfoldable pub verify_snapshot : ForensicSnapshot → B → Bool
  unfolding verify_elements compute_root_hash
  verify_snapshot snapshot key =
      if nat_eq (g.size key) 0
      then false
      else if not (nonempty snapshot.elements)
      then false
      else verify_root snapshot.root_hash (verify_elements key g.zeros snapshot.elements)
