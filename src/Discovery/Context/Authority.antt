-- ===== src/Discovery/Context/Authority.antt =====
-- The groups of `resolve` in src/notary_platform/discovery/context.py: what `grouped` holds, and
-- which binding of a group prevails.
use notary_platform.Prelude.{
  ◌≡◌, ◌≤◌, ◌<◌, sym, ap, ◌∙◌, ℕ, suc, String, Bool, true, ◌&&◌, ◌⊎◌, Bool-cases, List, [], ◌∷◌,
  length, keep, nat_eq, leb, leb→le, leb-false→lt, ◌==◌, eq_iff, All, All-keep, All-append, arith,
  inl, inr,
}
use mathlib.Core.Path.{subst}
use notary_platform.Dict.{Dict, get, or_else, Entries}
use notary_platform.Value.{Draw}
use notary_platform.Records.Binding.{ContextBinding}
use notary_platform.Discovery.Context.{
  authority_rank, group_key, group_by_key, insert_by_rank, sort_by_rank, ties_of, Ranked, rank_ties,
  rank_sorted, rank_groups,
}
use notary_platform.Discovery.Context.Groups.{
  keep-&&, group_by_key-get, Unique-group_by_key, Unique-Entries, insert_by_rank-All,
  sort_by_rank-All, All-sort_by_rank, count-sort_by_rank, AtMost, Headed,
}

AtMost-trans :
    (a b : ContextBinding) (bs : List ContextBinding)
    → AtMost a b
    → All (AtMost b) bs
    → All (AtMost a) bs
AtMost-trans a b [] le h = tt
AtMost-trans a b (c ∷ bs) le h = (ground arith, AtMost-trans a b bs le h.1)

lt_le : {m n : ℕ} → m < n → m ≤ n
lt_le h = omega arith

insert_by_rank-Headed :
    (cb : ContextBinding) (bs : List ContextBinding) → Headed bs → Headed (insert_by_rank cb bs)
unfolding insert_by_rank
insert_by_rank-Headed cb [] h = tt
insert_by_rank-Headed cb (b ∷ bs) h =
    elim (Bool-cases (leb (authority_rank b) (authority_rank cb))) [
      | inl first ↦ rw first (leb→le _ _ first, AtMost-trans cb b bs (leb→le _ _ first) h)
      | inr after ↦
          rw after (insert_by_rank-All (AtMost b) cb bs (lt_le (leb-false→lt _ _ after)) h)
    ]

pub sort_by_rank-Headed : (bs : List ContextBinding) → Headed (sort_by_rank bs)
unfolding sort_by_rank
sort_by_rank-Headed [] = tt
sort_by_rank-Headed (b ∷ bs) = insert_by_rank-Headed b (sort_by_rank bs) (sort_by_rank-Headed bs)

module _ {ℓ} {A : Type ℓ} (Q : A → Type 0) (p : A → Bool) where
  All-of-keep : (xs : List A) → All Q (keep p xs) → All (λ x. p x ≡ true → Q x) xs
  unfolding keep
  All-of-keep [] h = tt
  All-of-keep (x ∷ xs) h = elim (Bool-cases (p x)) [
    | inl yes_p ↦
        let h' : All Q (x ∷ keep p xs) = rw yes_p at h in ((λ given. h'.0), All-of-keep xs h'.1)
    | inr no_p ↦
        let h' : All Q (keep p xs) = rw no_p at h in
        ((λ given. absurd (ground arith)), All-of-keep xs h')
  ]

  keep-All_of : (xs : List A) → All Q xs → All Q (keep p xs)
  unfolding keep
  keep-All_of [] h = tt
  keep-All_of (x ∷ xs) h = ground (arith, keep-All_of xs h.1)

-- Among `bs` no binding of the same group has a greater authority, and none has the same unless a
-- customer has confirmed it.
abbrev pub Prevails : List ContextBinding → ContextBinding → Type 0
Prevails bs cb =
    All (λ b. (group_key b == group_key cb) ≡ true → authority_rank b ≤ authority_rank cb) bs
    × (((cb.authority == "customer_confirmed") ≡ true)
        ⊎ (length (
              keep
                (λ b.
                  (group_key b == group_key cb) && nat_eq (authority_rank b) (authority_rank cb))
                bs)
            ≤ 1))

few : {P : Type 0} {m n : ℕ} → m ≡ n → P ⊎ (m ≤ 1) → P ⊎ (n ≤ 1)
few e (inl p) = inl p
few e (inr le) = inr (omega arith)

module _ (bs : List ContextBinding) (Q : ContextBinding → Type 0) (all : All Q bs) where
  abbrev Winner : ContextBinding → Type 0
  Winner cb = Q cb × Prevails bs cb

  abbrev group : String → List ContextBinding
  group key = keep (λ b. group_key b == key) bs

  rank_ties-All :
      (draw : Draw) (org_id der_id key : String) (top : ContextBinding) (ties : List ContextBinding)
      (acc : Ranked)
      → All Winner acc.final_included
      → (((top.authority == "customer_confirmed") ≡ true) ⊎ (length ties ≤ 1) → Winner top)
      → All Winner (rank_ties draw org_id der_id key top ties acc).final_included
  rank_ties-All draw org_id der_id key top [] acc h wins =
      All-append Winner acc.final_included (top ∷ []) h (wins (inr (omega arith)), tt)
  rank_ties-All draw org_id der_id key top (a ∷ []) acc h wins =
      All-append Winner acc.final_included (top ∷ []) h (wins (inr (omega arith)), tt)
  rank_ties-All draw org_id der_id key top (a ∷ b ∷ more) acc h wins =
      elim (Bool-cases (top.authority == "customer_confirmed")) [
        | inl confirmed ↦
            rw confirmed
              (All-append Winner acc.final_included (top ∷ []) h (wins (inl confirmed), tt))
        | inr other ↦ rw other h
      ]

  -- the head of a sorted group wins where it has no rival
  sorted-Winner :
      (key : String) (top : ContextBinding) (rest : List ContextBinding)
      → sort_by_rank (group key) ≡ top ∷ rest
      → ((top.authority == "customer_confirmed") ≡ true) ⊎ (length (ties_of top (top ∷ rest)) ≤ 1)
      → Winner top
  unfolding ties_of
  sorted-Winner key top rest e alone =
      let in_key : All (λ b. (group_key b == key) ≡ true) (top ∷ rest) =
        subst (All (λ b. (group_key b == key) ≡ true)) e
          (sort_by_rank-All _ (group key) (All-keep (λ b. group_key b == key) bs)) in
      let same : group_key top ≡ key = (eq_iff _ _).0 in_key.0 in
      let qs : All Q (top ∷ rest) =
        subst (All Q) e (sort_by_rank-All Q (group key) (keep-All_of Q _ bs all)) in
      let headed : Headed (top ∷ rest) = subst Headed e (sort_by_rank-Headed (group key)) in
      let most : All (AtMost top) (group key) =
        All-sort_by_rank (AtMost top) (group key)
          (subst (All (AtMost top)) (sym e) (omega arith, headed)) in
      let counted : length (ties_of top (top ∷ rest))
          ≡ length (
              keep (λ b. (group_key b == key) && nat_eq (authority_rank b) (authority_rank top))
                bs) =
        ap (λ l. length (ties_of top l)) (sym e)
        ∙ count-sort_by_rank (λ g. nat_eq (authority_rank g) (authority_rank top)) (group key)
        ∙ ap length (
            keep-&& (λ g. nat_eq (authority_rank g) (authority_rank top)) (λ b. group_key b == key)
              bs) in
      (
        qs.0,
        subst
            (λ k.
              All (λ b. (group_key b == k) ≡ true → authority_rank b ≤ authority_rank top) bs
              × (((top.authority == "customer_confirmed") ≡ true)
                  ⊎ (length (
                        keep
                          (λ b.
                            (group_key b == k) && nat_eq (authority_rank b) (authority_rank top))
                          bs)
                      ≤ 1)))
            (sym same)
            (All-of-keep (AtMost top) (λ b. group_key b == key) bs most, few counted alone),
      )

  rank_sorted-Winner :
      (draw : Draw) (org_id der_id key : String) (sorted : List ContextBinding) (acc : Ranked)
      → sort_by_rank (group key) ≡ sorted
      → All Winner acc.final_included
      → All Winner (rank_sorted draw org_id der_id key sorted acc).final_included
  rank_sorted-Winner draw org_id der_id key [] acc e h = h
  rank_sorted-Winner draw org_id der_id key (top ∷ rest) acc e h =
      rank_ties-All draw org_id der_id key top (ties_of top (top ∷ rest)) acc h
        (sorted-Winner key top rest e)

  pub rank_groups-Winner :
      (draw : ℕ → Draw) (k : ℕ) (org_id der_id : String) (groups : Dict (List ContextBinding))
      (acc : Ranked)
      → Entries (λ key g. g ≡ group key) groups
      → All Winner acc.final_included
      → All Winner (rank_groups draw k org_id der_id groups acc).final_included
  unfolding rank_groups
  rank_groups-Winner draw k org_id der_id [] acc e h = h
  rank_groups-Winner draw k org_id der_id ((key, g) ∷ groups) acc e h =
      rank_groups-Winner draw (suc k) org_id der_id groups _ e.1 (
        rank_sorted-Winner (draw k) org_id der_id key (sort_by_rank g) acc
          (ap sort_by_rank (sym e.0)) h)

  pub group_by_key-Entries : Entries (λ key g. g ≡ group key) (group_by_key bs [])
  unfolding keep get
  group_by_key-Entries =
      Unique-Entries (λ key g. g ≡ group key) (group_by_key bs []) (Unique-group_by_key bs [] tt)
        (λ key g e. sym (ap (λ o. or_else o []) e) ∙ group_by_key-get key bs [])
