-- ===== src/Discovery/Identity/Precedence.antt =====
-- The order of precedence of `resolve` in src/notary_platform/discovery/identity.py.
use notary_platform.Prelude.{
  String, ◌≡◌, refl, sym, ◌∙◌, Bool, true, false, ◌&&◌, ◌||◌, ◌==◌, Bool-cases, Option-cases, inl,
  inr, Option, none, some, List, [], ◌∷◌, nonblank, arith, All, ◌++◌, &&-eq-true,
}
use mathlib.Core.Path.{subst}
use mathlib.Core.Option.{some-injective}
use notary_platform.Dict.{Dict}
use notary_platform.Storage.{MemoryStorage}
use notary_platform.Discovery.Identity.{
  Texts, has_record, try_exact_id, try_dep_relationship, try_namespace, composite_key,
  try_composite_key, try_confirmed_link_assertion, truthy_text, first_found, or_method,
  inferred_from, resolve, Resolution,
}

-- Every answer of an attempt satisfies `P`.
abbrev Sound : (String → Type 0) → (String → Option String) → Type 0
Sound P attempt = (rid t : String) → attempt rid ≡ some t → P t

truthy_text-some :
    (o : Option String) (t : String) → truthy_text o ≡ some t → (o ≡ some t) × (nonblank t ≡ true)
truthy_text-some none t h = absurd (ground arith)
truthy_text-some (some u) t h = elim (Bool-cases (nonblank u)) [
  | inl given ↦
      let same : some u ≡ some t = rw given at h in
      (same, subst (λ v. nonblank v ≡ true) (some-injective _ _ same) given)
  | inr blank ↦ absurd (let h' = rw blank at h in ground arith)
]

first_found-sound :
    (P : String → Type 0) (attempt : String → Option String) (rids : List String) (t : String)
    → Sound P attempt
    → first_found attempt rids ≡ some t
    → P t
unfolding first_found
first_found-sound P attempt [] t sound h = absurd (ground arith)
first_found-sound P attempt (rid ∷ rest) t sound h =
    elim (Option-cases (truthy_text (attempt rid))) [
      | inl e ↦ first_found-sound P attempt rest t sound (rw e at h)
      | inr (u, e) ↦
          let same : some u ≡ some t = rw e at h in
          sound rid t ((truthy_text-some (attempt rid) u e).0 ∙ same)
    ]

module _ (texts : Texts) (org_id : String) (namespace_mappings : Dict String)
    (s : MemoryStorage) where
  abbrev HasRecord : String → Type 0
  HasRecord t = has_record t org_id s ≡ true

  try_exact_id-Sound : Sound HasRecord (try_exact_id org_id s)
  unfolding try_exact_id
  try_exact_id-Sound rid t h = elim (Bool-cases (has_record rid org_id s)) [
    | inl e ↦ subst HasRecord (some-injective _ _ (rw e at h)) e
    | inr e ↦ absurd (let h' = rw e at h in ground arith)
  ]

  try_namespace-Sound :
      (mappings : Dict String) → Sound HasRecord (try_namespace texts mappings org_id s)
  unfolding try_namespace
  try_namespace-Sound [] rid t h = absurd (ground arith)
  try_namespace-Sound ((prefix, ns_id) ∷ mappings) rid t h =
      let mapped = texts.replace_first rid prefix ns_id in
      elim (Bool-cases (texts.starts_with rid prefix && has_record mapped org_id s)) [
        | inl e ↦ subst HasRecord (some-injective _ _ (rw e at h)) (&&-eq-true _ _ e).1
        | inr e ↦ try_namespace-Sound mappings rid t (rw e at h)
      ]

  try_composite_key_sound :
      (rids : List String) (t : String) → try_composite_key org_id s rids ≡ some t → HasRecord t
  unfolding try_composite_key
  try_composite_key_sound [] t h = absurd (ground arith)
  try_composite_key_sound (rid ∷ rids) t h =
      elim (Bool-cases (has_record (composite_key (rid ∷ rids)) org_id s)) [
        | inl e ↦ subst HasRecord (some-injective _ _ (rw e at h)) e
        | inr e ↦ absurd (let h' = rw e at h in ground arith)
      ]

  -- The methods by which an identity is looked up among the stored records.
  abbrev pub is_looked_up : String → Bool
  is_looked_up method = method == "exact_id" || (method == "namespace" || method == "composite_key")

  abbrev Holds : Resolution → Type 0
  Holds (identity, method, links) = is_looked_up method ≡ true → HasRecord identity

  or_method-Holds :
      (method : String) (o : Option String) (otherwise : Resolution)
      → ((t : String) → o ≡ some t → is_looked_up method ≡ true → HasRecord t)
      → Holds otherwise
      → Holds (or_method method o otherwise)
  or_method-Holds method none otherwise sound rest = rest
  or_method-Holds method (some t) otherwise sound rest = sound t refl

  inferred_from-Holds : (rids : List String) → Holds (inferred_from rids)
  inferred_from-Holds [] h = absurd (ground arith)
  inferred_from-Holds (rid ∷ rids) h = absurd (ground arith)

  -- An identity that is resolved by an exact id, by a namespace mapping or by a composite key is the
  -- identity of a stored record of the organization.
  pub resolve_looked_up :
      (resource_ids : List String)
      → is_looked_up (resolve texts resource_ids org_id namespace_mappings s).1 ≡ true
      → has_record (resolve texts resource_ids org_id namespace_mappings s).0 org_id s ≡ true
  unfolding resolve
  resolve_looked_up resource_ids =
      let exact = first_found (try_exact_id org_id s) resource_ids in
      let dep = first_found (try_dep_relationship org_id s) resource_ids in
      let space = first_found (try_namespace texts namespace_mappings org_id s) resource_ids in
      let composite = truthy_text (try_composite_key org_id s resource_ids) in
      let link = first_found (try_confirmed_link_assertion org_id s) resource_ids in
      let r₅ = or_method "link_assertion" link (inferred_from resource_ids) in
      let r₄ = or_method "composite_key" composite r₅ in
      let r₃ = or_method "namespace" space r₄ in
      let r₂ = or_method "dep_relationship" dep r₃ in
      let h₅ : Holds r₅ =
        or_method-Holds "link_assertion" link (inferred_from resource_ids)
          (λ t e k. absurd (ground arith)) (inferred_from-Holds resource_ids) in
      let h₄ : Holds r₄ =
        or_method-Holds "composite_key" composite r₅
          (λ t e k.
            try_composite_key_sound resource_ids t
              (truthy_text-some (try_composite_key org_id s resource_ids) t e).0)
          h₅ in
      let h₃ : Holds r₃ =
        or_method-Holds "namespace" space r₄
          (λ t e k.
            first_found-sound HasRecord (try_namespace texts namespace_mappings org_id s)
              resource_ids t (try_namespace-Sound namespace_mappings) e)
          h₄ in
      let h₂ : Holds r₂ =
        or_method-Holds "dep_relationship" dep r₃ (λ t e k. absurd (ground arith)) h₃ in
      or_method-Holds "exact_id" exact r₂
        (λ t e k.
          first_found-sound HasRecord (try_exact_id org_id s) resource_ids t try_exact_id-Sound e)
        h₂

-- The first resource id that is itself the identity of a record.
first_exact :
    (org_id : String) (s : MemoryStorage) (rids : List String) (rid : String)
    → nonblank rid ≡ true
    → has_record rid org_id s ≡ true
    → (rest : List String) → (before : List String)
    → All (λ r. has_record r org_id s ≡ false) before
    → rids ≡ before ++ rid ∷ rest
    → first_found (try_exact_id org_id s) rids ≡ some rid
unfolding first_found try_exact_id
first_exact org_id s rids rid given known rest before none_before split =
    subst (λ l. first_found (try_exact_id org_id s) l ≡ some rid) (sym split)
      (go before none_before)
  where
    go :
        (before : List String)
        → All (λ r. has_record r org_id s ≡ false) before
        → first_found (try_exact_id org_id s) (before ++ rid ∷ rest) ≡ some rid
    go [] h = rw (known, given)
    go (r ∷ before) h = rw h.0 (go before h.1)

-- The first resource id that is itself the identity of a stored record decides, whatever links,
-- mappings and composite keys there are.
pub resolve_exact :
    (texts : Texts) (org_id : String) (namespace_mappings : Dict String) (s : MemoryStorage)
    (before rest : List String) (rid : String)
    → nonblank rid ≡ true
    → has_record rid org_id s ≡ true
    → All (λ r. has_record r org_id s ≡ false) before
    → resolve texts (before ++ rid ∷ rest) org_id namespace_mappings s ≡ (rid, "exact_id", [])
unfolding resolve
resolve_exact texts org_id namespace_mappings s before rest rid given known none_before =
    rw (first_exact org_id s (before ++ rid ∷ rest) rid given known rest before none_before refl)

or_method-links :
    (method : String) (o : Option String) (otherwise : Resolution)
    → otherwise.2 ≡ []
    → (or_method method o otherwise).2 ≡ []
or_method-links method none otherwise h = h
or_method-links method (some t) otherwise h = refl

inferred_from-links : (rids : List String) → (inferred_from rids).2 ≡ []
inferred_from-links [] = refl
inferred_from-links (rid ∷ rids) = refl

-- On no path does `resolve` return a link assertion, even where it followed one.
pub resolve-links :
    (texts : Texts) (rids : List String) (org_id : String) (mappings : Dict String)
    (s : MemoryStorage)
    → (resolve texts rids org_id mappings s).2 ≡ []
unfolding resolve
resolve-links texts rids org_id mappings s =
    or_method-links "exact_id" (first_found (try_exact_id org_id s) rids) _ (
      or_method-links "dep_relationship" (first_found (try_dep_relationship org_id s) rids) _ (
        or_method-links "namespace" (first_found (try_namespace texts mappings org_id s) rids) _ (
          or_method-links "composite_key" (truthy_text (try_composite_key org_id s rids)) _ (
            or_method-links "link_assertion"
              (first_found (try_confirmed_link_assertion org_id s) rids) _
              (inferred_from-links rids)))))
