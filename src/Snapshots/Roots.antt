-- ===== src/Snapshots/Roots.antt =====
-- The rounds of `_compute_root_hash` in src/notary_platform/snapshot.py end.
use notary_platform.Prelude.{
  ◌≡◌, ◌≤◌, ℕ, zero, suc, true, Option, none, some, is_some, List, [], ◌∷◌, length, nonempty, refl,
  arith,
}
use notary_platform.Snapshots.{Hashing, hex_of, next_round, root_of, compute_root_hash}

module _ {B : Type 0} (g : Hashing B) where
  length-next_round_le : (hashes : List B) → length (next_round g hashes) ≤ length hashes
  unfolding next_round
  length-next_round_le [] = omega arith
  length-next_round_le (h ∷ []) = omega arith
  length-next_round_le (h ∷ h' ∷ rest) = omega (arith, length-next_round_le rest)

  nonempty-next_round : (h : B) (rest : List B) → nonempty (next_round g (h ∷ rest)) ≡ true
  unfolding next_round
  nonempty-next_round h [] = refl
  nonempty-next_round h (h' ∷ rest) = refl

  root_of-some :
      (fuel : ℕ) (hashes : List B)
      → length hashes ≤ fuel
      → nonempty hashes ≡ true
      → is_some (root_of g fuel hashes) ≡ true
  unfolding root_of next_round
  root_of-some fuel [] le given = absurd (ground arith)
  root_of-some fuel (h ∷ []) le given = refl
  root_of-some zero (h ∷ h' ∷ rest) le given = absurd (omega arith)
  root_of-some (suc fuel) (h ∷ h' ∷ rest) le given =
      root_of-some fuel (next_round g (h ∷ h' ∷ rest)) (omega (arith, length-next_round_le rest))
        refl

  is_some-hex_of : (o : Option B) → is_some o ≡ true → is_some (hex_of g o) ≡ true
  is_some-hex_of none h = absurd (ground arith)
  is_some-hex_of (some b) h = refl

  -- The rounds over any hashes, at least one, end with a root.
  pub compute_root_hash-ends :
      (hashes : List B) → nonempty hashes ≡ true → is_some (compute_root_hash g hashes) ≡ true
  unfolding compute_root_hash
  compute_root_hash-ends hashes given =
      is_some-hex_of (root_of g (length hashes) hashes)
        (root_of-some (length hashes) hashes (omega arith) given)
