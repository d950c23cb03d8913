-- ===== src/Examples/Seals.antt =====
-- One sealed snapshot, over numbers as bytes.
use notary_platform.Prelude.{
  ◌≡◌, ◌↔◌, refl, ℕ, ◌+◌, ◌*◌, true, ◌==◌, some, is_some, [], ◌∷◌, nat_eq, show, if◌then◌else◌,
}
use notary_platform.Value.{end}
use notary_platform.Snapshots.{
  ForensicSnapshot, Hashing, next_round, root_of, compute_root_hash, verify_elements,
  verify_snapshot,
}
use notary_platform.Snapshots.Roots.{compute_root_hash-ends}
use notary_platform.Snapshots.Seals.{IsSealed, verify_snapshot_iff}

-- a hash is a number here, and its text is the number's
abbrev hashing : Hashing ℕ
hashing = record {
  zeros = 0;
  size = λ n. 32;
  hmac = λ key prev content. key + 2 * prev + content;
  sha256 = λ left right. left + 3 * right;
  hex = show;
  from_hex = λ t. some (if t == "12" then 12 else 36);
  same = nat_eq;
  canonical_json = λ kind payload. 5;
}

abbrev snapshot : ForensicSnapshot
snapshot = record {
  schema_version = 1;
  timestamp = "t0";
  elements =
      record { kind = "model_call"; payload = end; element_hash = "12" }
      ∷ record { kind = "decision"; payload = end; element_hash = "36" }
      ∷ [];
  merkle_chain = [];
  root_hash = "120";
}

compute_root_hash-ends_example : is_some (compute_root_hash hashing (1 ∷ 2 ∷ 3 ∷ [])) ≡ true
compute_root_hash-ends_example = compute_root_hash-ends hashing (1 ∷ 2 ∷ 3 ∷ []) refl

verify_snapshot_iff_example :
    (verify_snapshot hashing snapshot 7 ≡ true) ↔ IsSealed hashing snapshot 7
verify_snapshot_iff_example = verify_snapshot_iff hashing snapshot 7

accepted_test : verify_snapshot hashing snapshot 7 ≡ true
unfolding verify_snapshot verify_elements compute_root_hash root_of next_round show
accepted_test = refl
