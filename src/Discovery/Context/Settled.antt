-- ===== src/Discovery/Context/Settled.antt =====
-- The groups of `resolve` in src/notary_platform/discovery/context.py: each has a binding that is
-- included, or a conflict.
use notary_platform.Prelude.{
  ◌≡◌, ◌≤◌, ◌⊎◌, refl, sym, ap, ◌∙◌, ℕ, suc, String, Bool, true, false, ◌==◌, eq_iff, Bool-cases,
  Option-cases, inl, inr, List, [], ◌∷◌, length, nonempty, keep, nat_eq, All, All-keep, All-map,
  arith, eq_refl,
}
use mathlib.Core.Path.{subst}
use mathlib.Core.List.{Mem, mem-cons_self, mem-append_left, mem-append_right}
use notary_platform.Dict.{Dict, get, or_else, Entries, Entries-get}
use notary_platform.Value.{Draw}
use notary_platform.Records.Binding.{ContextBinding}
use notary_platform.Discovery.Context.{
  authority_rank, group_key, group_by_key, sort_by_rank, ties_of, Ranked, rank_ties, rank_sorted,
  rank_groups,
}
use notary_platform.Discovery.Context.Groups.{
  group_by_key-get, sort_by_rank-All, All-sort_by_rank, count-sort_by_rank, AtMost, Headed,
}
use notary_platform.Discovery.Context.Authority.{sort_by_rank-Headed}

rank_ties-keeps :
    (draw : Draw) (org_id der_id key : String) (top : ContextBinding) (ties : List ContextBinding)
    (acc : Ranked) (w : ContextBinding)
    → Mem w acc.final_included
    → Mem w (rank_ties draw org_id der_id key top ties acc).final_included
rank_ties-keeps draw org_id der_id key top [] acc w m = mem-append_left (top ∷ []) m
rank_ties-keeps draw org_id der_id key top (a ∷ []) acc w m = mem-append_left (top ∷ []) m
rank_ties-keeps draw org_id der_id key top (a ∷ b ∷ more) acc w m =
    elim (Bool-cases (top.authority == "customer_confirmed")) [
      | inl confirmed ↦ rw confirmed (mem-append_left (top ∷ []) m)
      | inr other ↦ rw other m
    ]

rank_sorted-keeps :
    (draw : Draw) (org_id der_id key : String) (sorted : List ContextBinding) (acc : Ranked)
    (w : ContextBinding)
    → Mem w acc.final_included
    → Mem w (rank_sorted draw org_id der_id key sorted acc).final_included
rank_sorted-keeps draw org_id der_id key [] acc w m = m
rank_sorted-keeps draw org_id der_id key (top ∷ rest) acc w m =
    rank_ties-keeps draw org_id der_id key top (ties_of top (top ∷ rest)) acc w m

rank_groups-keeps :
    (draw : ℕ → Draw) (k : ℕ) (org_id der_id : String) (groups : Dict (List ContextBinding))
    (acc : Ranked) (w : ContextBinding)
    → Mem w acc.final_included
    → Mem w (rank_groups draw k org_id der_id groups acc).final_included
unfolding rank_groups
rank_groups-keeps draw k org_id der_id [] acc w m = m
rank_groups-keeps draw k org_id der_id ((key, g) ∷ groups) acc w m =
    rank_groups-keeps draw (suc k) org_id der_id groups _ w
      (rank_sorted-keeps (draw k) org_id der_id key (sort_by_rank g) acc w m)

rank_ties_outcome :
    (draw : Draw) (org_id der_id key : String) (top : ContextBinding) (ties : List ContextBinding)
    (acc : Ranked)
    → Mem top (rank_ties draw org_id der_id key top ties acc).final_included
      ⊎ (((top.authority == "customer_confirmed") ≡ false) × (2 ≤ length ties))
rank_ties_outcome draw org_id der_id key top [] acc =
    inl (mem-append_right acc.final_included mem-cons_self)
rank_ties_outcome draw org_id der_id key top (a ∷ []) acc =
    inl (mem-append_right acc.final_included mem-cons_self)
rank_ties_outcome draw org_id der_id key top (a ∷ b ∷ more) acc =
    elim (Bool-cases (top.authority == "customer_confirmed")) [
      | inl confirmed ↦ inl (rw confirmed (mem-append_right acc.final_included mem-cons_self))
      | inr other ↦ inr (other, omega arith)
    ]

none_nonempty : (l : List ContextBinding) → All (λ b. ⊥) l → nonempty l ≡ true → ⊥
none_nonempty [] h given = ground arith
none_nonempty (b ∷ l) h given = h.0

module _ (bs : List ContextBinding) where
  abbrev group : String → List ContextBinding
  group key = keep (λ b. group_key b == key) bs

  -- Among the bindings of the group none has a greater authority than `top`, which no customer has
  -- confirmed, and at least two have the same.
  pub record Contested (key : String) : Type 0 where
    pub top : ContextBinding
    pub in_group : group_key top ≡ key
    pub unconfirmed : (top.authority == "customer_confirmed") ≡ false
    pub greatest : All (AtMost top) (keep (λ b. group_key b == key) bs)
    pub tied : 2 ≤ length (ties_of top (keep (λ b. group_key b == key) bs))

  -- a binding of the group is among those of `In`, or the group is contested
  abbrev pub Settled : (ContextBinding → Type 0) → String → Type 0
  Settled In key = ((w : ContextBinding) × (group_key w ≡ key) × In w) ⊎ Contested key

  pub Settled-map :
      (In Out : ContextBinding → Type 0) (key : String)
      → ((w : ContextBinding) → In w → Out w)
      → Settled In key
      → Settled Out key
  Settled-map In Out key f (inl (w, same, m)) = inl (w, same, f w m)
  Settled-map In Out key f (inr contested) = inr contested

  ties-Contested :
      (key : String) (top : ContextBinding) (rest : List ContextBinding)
      → sort_by_rank (group key) ≡ top ∷ rest
      → group_key top ≡ key
      → (top.authority == "customer_confirmed") ≡ false
      → 2 ≤ length (ties_of top (top ∷ rest))
      → Contested key
  unfolding ties_of
  ties-Contested key top rest e same other two =
      let headed : Headed (top ∷ rest) = subst Headed e (sort_by_rank-Headed (group key)) in
      let counted : length (ties_of top (top ∷ rest)) ≡ length (ties_of top (group key)) =
        ap (λ l. length (ties_of top l)) (sym e)
        ∙ count-sort_by_rank (λ g. nat_eq (authority_rank g) (authority_rank top)) (group key) in
      record {
        top = top;
        in_group = same;
        unconfirmed = other;
        greatest =
            All-sort_by_rank (AtMost top) (group key)
              (subst (All (AtMost top)) (sym e) (omega arith, headed));
        tied = omega arith;
      }

  rank_sorted-Settled :
      (draw : Draw) (org_id der_id key : String) (sorted : List ContextBinding) (acc : Ranked)
      → sort_by_rank (group key) ≡ sorted
      → nonempty (group key) ≡ true
      → Settled (λ w. Mem w (rank_sorted draw org_id der_id key sorted acc).final_included) key
  rank_sorted-Settled draw org_id der_id key [] acc e given = absurd (
      none_nonempty (group key)
        (All-sort_by_rank (λ b. ⊥) (group key) (subst (All (λ b. ⊥)) (sym e) tt)) given)
  rank_sorted-Settled draw org_id der_id key (top ∷ rest) acc e given =
      let keyed = λ (b : ContextBinding). (group_key b == key) ≡ true in
      let in_key : All keyed (top ∷ rest) =
        subst (All keyed) e
          (sort_by_rank-All keyed (group key) (All-keep (λ b. group_key b == key) bs)) in
      let same : group_key top ≡ key = (eq_iff _ _).0 in_key.0 in
      elim (rank_ties_outcome draw org_id der_id key top (ties_of top (top ∷ rest)) acc) [
        | inl m ↦ inl (top, same, m)
        | inr (other, two) ↦ inr (ties-Contested key top rest e same other two)
      ]

  rank_groups-Settled :
      (draw : ℕ → Draw) (k : ℕ) (org_id der_id : String) (groups : Dict (List ContextBinding))
      (acc : Ranked)
      → Entries (λ key g. g ≡ group key) groups
      → Entries
          (λ key g.
            nonempty g ≡ true
            → Settled (λ w. Mem w (rank_groups draw k org_id der_id groups acc).final_included) key)
          groups
  unfolding rank_groups
  rank_groups-Settled draw k org_id der_id [] acc e = tt
  rank_groups-Settled draw k org_id der_id ((key, g) ∷ groups) acc e =
      let ranked = rank_sorted (draw k) org_id der_id key (sort_by_rank g) acc in
      (
        λ given.
            Settled-map _ _ key
              (λ w m. rank_groups-keeps draw (suc k) org_id der_id groups ranked w m)
              (rank_sorted-Settled (draw k) org_id der_id key (sort_by_rank g) acc
                (ap sort_by_rank (sym e.0)) (ap nonempty (sym e.0) ∙ given)),
        rank_groups-Settled draw (suc k) org_id der_id groups ranked e.1,
      )

  pub key-Settled :
      (draw : ℕ → Draw) (org_id der_id key : String) (acc : Ranked)
      → Entries (λ k g. g ≡ group k) (group_by_key bs [])
      → nonempty (group key) ≡ true
      → Settled
          (λ w. Mem w (rank_groups draw 1 org_id der_id (group_by_key bs []) acc).final_included)
          key
  unfolding get
  key-Settled draw org_id der_id key acc entries given =
      let grouped : or_else (get key (group_by_key bs [])) [] ≡ group key =
        group_by_key-get key bs [] in
      elim (Option-cases (get key (group_by_key bs []))) [
        | inl e ↦ absurd (
            let empty : [] ≡ group key = rw e at grouped in
            let h = ap nonempty empty ∙ given in ground arith)
        | inr (g, e) ↦
            let same : g ≡ group key = rw e at grouped in
            Entries-get _ key g (group_by_key bs [])
              (rank_groups-Settled draw 1 org_id der_id (group_by_key bs []) acc entries) e
              (ap nonempty same ∙ given)
      ]

nonempty-keep_cons :
    (p : ContextBinding → Bool) (b : ContextBinding) (bs : List ContextBinding)
    → nonempty (keep p bs) ≡ true
    → nonempty (keep p (b ∷ bs)) ≡ true
unfolding keep
nonempty-keep_cons p b bs h = ground arith

-- each binding stands in its group
pub All-grouped :
    (bs : List ContextBinding)
    → All (λ cb. nonempty (keep (λ b. group_key b == group_key cb) bs) ≡ true) bs
unfolding keep
All-grouped [] = tt
All-grouped (b ∷ bs) = (
  rw (eq_refl (group_key b)) refl,
  All-map (λ cb. nonempty-keep_cons (λ x. group_key x == group_key cb) b bs) bs (All-grouped bs),
)
