-- ===== src/Dict.antt =====
-- Python's `dict` with text keys, in insertion order: writing a key that is there keeps its place,
-- a new key goes to the end. `MemoryStorage` (src/notary_platform/storage.py) keeps each of its
-- collections in such a dict, and the lists it returns follow this order.
use notary_platform.Prelude.{
  String, ◌≡◌, refl, Option, none, some, List, [], ◌∷◌, arith, ◌==◌, eq_iff, eq_refl, if◌then◌else◌,
  map, keep, Bool, true, Bool-cases, inl, inr, last,
}

abbrev pub Dict {ℓ} : Type ℓ → Type ℓ
Dict V = List (String × V)

module _ {ℓ} {V : Type ℓ} where
  -- d.get(k)
  unfoldable pub get : String → Dict V → Option V
  get k [] = none
  get k ((j, v) ∷ m) = let rest = get k m in if j == k then some v else rest

  -- d[k] = v
  unfoldable pub put : String → V → Dict V → Dict V
  put k v [] = (k, v) ∷ []
  put k v ((j, w) ∷ m) = let rest = put k v m in if j == k then (j, v) ∷ m else (j, w) ∷ rest

  -- d.values()
  unfoldable pub values : Dict V → List V
  values m = map (λ e. e.1) m

  -- d.get(k, default)
  abbrev pub or_else : Option V → V → V
  or_else none d = d
  or_else (some v) d = v

  pub get-put :
      (k j : String) (v : V) (m : Dict V) → get j (put k v m) ≡ (if k == j then some v else get j m)
  unfolding get put
  get-put k j v [] = refl
  get-put k j v ((i, w) ∷ m) = ground (arith, eq_iff k j, eq_iff i k, eq_iff i j, get-put k j v m)

  pub get-put_self : (k : String) (v : V) (m : Dict V) → get k (put k v m) ≡ some v
  get-put_self k v m = simp (get-put, eq_refl)

module _ {ℓ κ} {V : Type ℓ} (P : String → V → Type κ) where
  -- Every entry of the dict satisfies `P`.
  abbrev pub Entries : Dict V → Type κ
  Entries [] = Unit
  Entries ((k, v) ∷ m) = P k v × Entries m

  pub Entries-get : (k : String) (v : V) (m : Dict V) → Entries m → get k m ≡ some v → P k v
  unfolding get
  Entries-get k v [] h e = ground arith
  Entries-get k v ((j, w) ∷ m) h e = ground (arith, eq_iff j k, Entries-get k v m)

  pub Entries-put : (k : String) (v : V) (m : Dict V) → P k v → Entries m → Entries (put k v m)
  unfolding put
  Entries-put k v [] p h = (p, tt)
  Entries-put k v ((j, w) ∷ m) p h = ground (arith, eq_iff j k, Entries-put k v m p h.1)

module _ {ℓ} {V : Type ℓ} where
  pub put-put : (k : String) (v w : V) (m : Dict V) → put k w (put k v m) ≡ put k w m
  unfolding put
  put-put k v w [] = ground (arith, eq_refl k)
  put-put k v w ((j, u) ∷ m) = ground (arith, eq_iff j k, put-put k v w m)

  -- the one entry that passes is the one that is put
  pub keep-put :
      (p : V → Bool) (k : String) (v : V) (m : Dict V)
      → keep p (values m) ≡ []
      → p v ≡ true
      → keep p (values (put k v m)) ≡ v ∷ []
  unfolding keep values put
  keep-put p k v [] h passes = rw passes refl
  keep-put p k v ((j, u) ∷ m) h passes = elim (Bool-cases (p u)) [
    | inl e ↦ absurd (let h' = rw e at h in ground arith)
    | inr e ↦
        let rest : keep p (values m) ≡ [] = rw e at h in
        let later = keep-put p k v m rest passes in
        elim (Bool-cases (j == k)) [
          | inl same ↦ rw (same, passes, rest) refl
          | inr other ↦ rw (other, e) later
        ]
  ]

  last_cons : (w v : V) (xs : List V) → last xs ≡ some v → last (w ∷ xs) ≡ some v
  last_cons w v [] h = absurd (ground arith)
  last_cons w v (x ∷ xs) h = h

  -- a new entry that passes comes last
  pub last-put :
      (p : V → Bool) (k : String) (v : V) (m : Dict V)
      → get k m ≡ none
      → p v ≡ true
      → last (keep p (values (put k v m))) ≡ some v
  unfolding keep values put get
  last-put p k v [] fresh passes = rw passes refl
  last-put p k v ((j, w) ∷ m) fresh passes = elim (Bool-cases (j == k)) [
    | inl e ↦ absurd (let h = rw e at fresh in ground arith)
    | inr e ↦
        let rest : last (keep p (values (put k v m))) ≡ some v =
          last-put p k v m (rw e at fresh) passes in
        elim (Bool-cases (p w)) [
          | inl f ↦ rw (e, f) (last_cons w v (keep p (values (put k v m))) rest)
          | inr f ↦ rw (e, f) rest
        ]
  ]
