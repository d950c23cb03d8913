-- ===== src/Snapshots/Seals.antt =====
-- `verify_snapshot` of src/notary_platform/snapshot.py and the chain of seals it accepts.
use notary_platform.Prelude.{
  ◌≡◌, ◌↔◌, refl, ap, String, true, false, eq_iff, eq_refl, Option, none, some, Bool-cases,
  Option-cases, inl, inr, List, [], ◌∷◌, nonempty, nonblank, nat_eq, arith,
}
use mathlib.Core.Path.{subst}
use mathlib.Core.Option.{some-injective}
use notary_platform.Snapshots.{
  CapturedElement, ForensicSnapshot, Hashing, canonical_bytes, seal_element, compute_root_hash,
  element_is, verify_elements, root_is, verify_snapshot,
}

module _ {B : Type 0} (g : Hashing B) where
  -- the element stores, in hexadecimal, a hash of 32 bytes that is the recomputed one
  pub record StoresHash (recomputed : B) (e : CapturedElement) : Type 0 where
    pub given : nonblank e.element_hash ≡ true
    pub stored : B
    pub read : g.from_hex e.element_hash ≡ some stored
    pub whole : nat_eq (g.size stored) 32 ≡ true
    pub agrees : g.same recomputed stored ≡ true

  -- Each element stores the seal of its content under the seal before it; the seals in order.
  pub data Chain (key : B) : B → List CapturedElement → List B → Type 0 where
    done : {prev : B} → Chain key prev [] []
    sealed :
        {prev : B} {e : CapturedElement} {rest : List CapturedElement} {hashes : List B}
        → StoresHash (seal_element g prev (canonical_bytes g e) key) e
        → Chain key (seal_element g prev (canonical_bytes g e) key) rest hashes
        → Chain key prev (e ∷ rest) (seal_element g prev (canonical_bytes g e) key ∷ hashes)

  -- what `verify_snapshot` accepts
  pub record IsSealed (snapshot : ForensicSnapshot) (key : B) : Type 0 where
    pub key_given : nat_eq (g.size key) 0 ≡ false
    pub has_elements : nonempty snapshot.elements ≡ true
    pub hashes : List B
    pub chain : Chain key g.zeros snapshot.elements hashes
    pub root_given : nonblank snapshot.root_hash ≡ true
    pub root : compute_root_hash g hashes ≡ some snapshot.root_hash

  element_is→StoresHash :
      (recomputed : B) (e : CapturedElement)
      → element_is g recomputed e ≡ true
      → StoresHash recomputed e
  element_is→StoresHash recomputed e h = elim (Bool-cases (nonblank e.element_hash)) [
    | inr blank ↦ absurd (let h' = rw blank at h in ground arith)
    | inl given ↦ elim (Option-cases (g.from_hex e.element_hash)) [
      | inl unread ↦ absurd (let h' = rw (given, unread) at h in ground arith)
      | inr (stored, read) ↦ elim (Bool-cases (nat_eq (g.size stored) 32)) [
        | inr other ↦ absurd (let h' = rw (given, read, other) at h in ground arith)
        | inl whole ↦ record {
          given = given;
          stored = stored;
          read = read;
          whole = whole;
          agrees = rw (given, read, whole) at h;
        }
      ]
    ]
  ]

  StoresHash→element_is :
      (recomputed : B) (e : CapturedElement)
      → StoresHash recomputed e
      → element_is g recomputed e ≡ true
  StoresHash→element_is recomputed e s = rw (s.given, s.read, s.whole) s.agrees

  verify_elements→Chain :
      (key prev : B) (elements : List CapturedElement) (hashes : List B)
      → verify_elements g key prev elements ≡ some hashes
      → Chain key prev elements hashes
  unfolding verify_elements
  verify_elements→Chain key prev [] hashes h = subst (Chain key prev []) (some-injective _ _ h) done
  verify_elements→Chain key prev (e ∷ rest) hashes h =
      let now = seal_element g prev (canonical_bytes g e) key in
      elim (Bool-cases (element_is g now e)) [
        | inr other ↦ absurd (let h' = rw other at h in ground arith)
        | inl stores ↦ elim (Option-cases (verify_elements g key now rest)) [
          | inl refused ↦ absurd (let h' = rw (stores, refused) at h in ground arith)
          | inr (later, found) ↦
              let same : some (now ∷ later) ≡ some hashes = rw (stores, found) at h in
              subst (Chain key prev (e ∷ rest)) (some-injective _ _ same) (
                sealed (element_is→StoresHash now e stores)
                  (verify_elements→Chain key now rest later found))
        ]
      ]

  Chain→verify_elements :
      {key prev : B} {elements : List CapturedElement} {hashes : List B}
      → Chain key prev elements hashes
      → verify_elements g key prev elements ≡ some hashes
  unfolding verify_elements
  Chain→verify_elements done = refl
  Chain→verify_elements (sealed stores later) =
      rw (StoresHash→element_is _ _ stores, Chain→verify_elements later)

  root_is→eq :
      (root_hash : String) (o : Option String) → root_is g root_hash o ≡ true → o ≡ some root_hash
  root_is→eq root_hash none h = absurd (ground arith)
  root_is→eq root_hash (some t) h = ap some ((eq_iff _ _).0 h)

  verified→IsSealed :
      (snapshot : ForensicSnapshot) (key : B)
      → verify_snapshot g snapshot key ≡ true
      → IsSealed snapshot key
  unfolding verify_snapshot
  verified→IsSealed snapshot key h = elim (Bool-cases (nat_eq (g.size key) 0)) [
    | inl no_key ↦ absurd (let h' = rw no_key at h in ground arith)
    | inr key_given ↦ elim (Bool-cases (nonempty snapshot.elements)) [
      | inr none_there ↦ absurd (let h' = rw (key_given, none_there) at h in ground arith)
      | inl there ↦ elim (Option-cases (verify_elements g key g.zeros snapshot.elements)) [
        | inl refused ↦ absurd (let h' = rw (key_given, there, refused) at h in ground arith)
        | inr (hashes, found) ↦ elim (Bool-cases (nonblank snapshot.root_hash)) [
          | inr blank ↦ absurd (let h' = rw (key_given, there, found, blank) at h in ground arith)
          | inl root_given ↦ record {
            key_given = key_given;
            has_elements = there;
            hashes = hashes;
            chain = verify_elements→Chain key g.zeros snapshot.elements hashes found;
            root_given = root_given;
            root =
                root_is→eq snapshot.root_hash (compute_root_hash g hashes)
                  (rw (key_given, there, found, root_given) at h);
          }
        ]
      ]
    ]
  ]

  IsSealed→verified :
      (snapshot : ForensicSnapshot) (key : B)
      → IsSealed snapshot key
      → verify_snapshot g snapshot key ≡ true
  unfolding verify_snapshot
  IsSealed→verified snapshot key s = rw (
    s.key_given,
    s.has_elements,
    Chain→verify_elements s.chain,
    s.root_given,
    s.root,
    eq_refl snapshot.root_hash,
  )

  -- A snapshot verifies under a key exactly when the key is not empty, there are elements, each
  -- element stores the seal of its content under the seal before it, and the root hash is the one of
  -- these seals.
  pub verify_snapshot_iff :
      (snapshot : ForensicSnapshot) (key : B)
      → (verify_snapshot g snapshot key ≡ true) ↔ IsSealed snapshot key
  verify_snapshot_iff snapshot key =
      (verified→IsSealed snapshot key, IsSealed→verified snapshot key)
