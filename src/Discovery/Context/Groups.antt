-- ===== src/Discovery/Context/Groups.antt =====
-- What `grouped` holds in `resolve` of src/notary_platform/discovery/context.py, and what sorting a
-- group keeps.
use notary_platform.Prelude.{
  ◌≡◌, ◌≤◌, refl, sym, ap, ◌∙◌, String, Bool, true, false, ◌&&◌, Bool-cases, none, some, List, [],
  ◌∷◌, ◌++◌, length, keep, leb, ◌==◌, eq_iff, eq_refl, All, arith, inl, inr, if◌then◌else◌,
}
use mathlib.Core.List.{append-nil, append_assoc}
use notary_platform.Dict.{Dict, get, put, get-put, or_else, Entries}
use notary_platform.Records.Binding.{ContextBinding}
use notary_platform.Discovery.Context.{
  authority_rank, group_key, group_by_key, insert_by_rank, sort_by_rank,
}

module _ {ℓ} {A : Type ℓ} where
  pub keep-&& : (p q : A → Bool) (xs : List A) → keep p (keep q xs) ≡ keep (λ x. q x && p x) xs
  unfolding keep
  keep-&& p q [] = refl
  keep-&& p q (x ∷ xs) = ground (arith, keep-&& p q xs)

in_group : String → ContextBinding → Bool
in_group key b = group_key b == key

-- What a group holds is what a filter by its key gives, in the same order.
pub group_by_key-get :
    (key : String) (bs : List ContextBinding) (groups : Dict (List ContextBinding))
    → or_else (get key (group_by_key bs groups)) []
      ≡ or_else (get key groups) [] ++ keep (λ b. group_key b == key) bs
unfolding group_by_key keep
group_by_key-get key [] groups = sym (append-nil _)
group_by_key-get key (cb ∷ rest) groups = elim (Bool-cases (group_key cb == key)) [
  | inl e ↦
      let same : group_key cb ≡ key = (eq_iff _ _).0 e in
      let old : List ContextBinding = or_else (get (group_key cb) groups) [] in
      let now : or_else (get key (put (group_key cb) (old ++ (cb ∷ [])) groups)) []
          ≡ old ++ (cb ∷ []) =
        rw (get-put, e) in
      let later : List ContextBinding = keep (λ b. group_key b == key) rest in
      group_by_key-get key rest (put (group_key cb) (old ++ (cb ∷ [])) groups)
      ∙ ap (λ l. l ++ later) now
      ∙ append_assoc old (cb ∷ []) later
      ∙ rw e (ap (λ k. or_else (get k groups) [] ++ (cb ∷ later)) same)
  | inr e ↦ rw (
    group_by_key-get key rest
        (put (group_key cb) (or_else (get (group_key cb) groups) [] ++ (cb ∷ [])) groups),
    get-put,
    e,
  )
]

-- Every key stands in the dict once.
abbrev Unique : Dict (List ContextBinding) → Type 0
Unique [] = Unit
Unique ((key, group) ∷ m) = (get key m ≡ none) × Unique m

Unique-put :
    (key : String) (group : List ContextBinding) (m : Dict (List ContextBinding))
    → Unique m
    → Unique (put key group m)
unfolding put get
Unique-put key group [] u = (refl, tt)
Unique-put key group ((j, g) ∷ m) u =
    ground (arith, eq_iff j key, eq_iff key j, Unique-put key group m u.1, get-put key j group m)

pub Unique-group_by_key :
    (bs : List ContextBinding) (m : Dict (List ContextBinding))
    → Unique m
    → Unique (group_by_key bs m)
unfolding group_by_key
Unique-group_by_key [] m u = u
Unique-group_by_key (cb ∷ rest) m u = Unique-group_by_key rest _ (Unique-put _ _ m u)

pub Unique-Entries :
    (P : String → List ContextBinding → Type 0) (m : Dict (List ContextBinding))
    → Unique m
    → ((key : String) (group : List ContextBinding) → get key m ≡ some group → P key group)
    → Entries P m
unfolding get
Unique-Entries P [] u h = tt
Unique-Entries P ((j, g) ∷ m) u h = (
  h j g (rw (eq_refl j)),
  Unique-Entries P m u.1 (λ key group e. h key group (ground (arith, eq_iff j key))),
)

module _ (P : ContextBinding → Type 0) where
  pub insert_by_rank-All :
      (cb : ContextBinding) (bs : List ContextBinding)
      → P cb
      → All P bs
      → All P (insert_by_rank cb bs)
  unfolding insert_by_rank
  insert_by_rank-All cb [] p h = (p, tt)
  insert_by_rank-All cb (b ∷ bs) p h = ground (arith, insert_by_rank-All cb bs p h.1)

  All-insert_by_rank :
      (cb : ContextBinding) (bs : List ContextBinding)
      → All P (insert_by_rank cb bs)
      → P cb × All P bs
  unfolding insert_by_rank
  All-insert_by_rank cb [] h = h
  All-insert_by_rank cb (b ∷ bs) h =
      elim (Bool-cases (leb (authority_rank b) (authority_rank cb))) [
        | inl first ↦ let h' : All P (cb ∷ b ∷ bs) = rw first at h in h'
        | inr after ↦
            let h' : All P (b ∷ insert_by_rank cb bs) = rw after at h in
            let (here, others) = All-insert_by_rank cb bs h'.1 in (here, (h'.0, others))
      ]

  pub sort_by_rank-All : (bs : List ContextBinding) → All P bs → All P (sort_by_rank bs)
  unfolding sort_by_rank
  sort_by_rank-All [] h = tt
  sort_by_rank-All (b ∷ bs) h = insert_by_rank-All b (sort_by_rank bs) h.0 (sort_by_rank-All bs h.1)

  pub All-sort_by_rank : (bs : List ContextBinding) → All P (sort_by_rank bs) → All P bs
  unfolding sort_by_rank
  All-sort_by_rank [] h = tt
  All-sort_by_rank (b ∷ bs) h =
      let (here, later) = All-insert_by_rank b (sort_by_rank bs) h in
      (here, All-sort_by_rank bs later)

kept_under : Bool → ContextBinding → List ContextBinding → List ContextBinding
kept_under c x l = if c then x ∷ l else l

length-kept_under :
    (c d : Bool) (x y : ContextBinding) (l m : List ContextBinding)
    → length l ≡ length (kept_under c x m)
    → length (kept_under d y l) ≡ length (kept_under c x (kept_under d y m))
unfolding kept_under
length-kept_under true true x y l m h = omega arith
length-kept_under true false x y l m h = h
length-kept_under false true x y l m h = omega arith
length-kept_under false false x y l m h = h

length-if :
    (c : Bool) (x : ContextBinding) (l m : List ContextBinding)
    → length l ≡ length m
    → length (if c then x ∷ l else l) ≡ length (if c then x ∷ m else m)
length-if true x l m h = omega arith
length-if false x l m h = h

module _ (p : ContextBinding → Bool) where
  count-insert_by_rank :
      (cb : ContextBinding) (bs : List ContextBinding)
      → length (keep p (insert_by_rank cb bs)) ≡ length (keep p (cb ∷ bs))
  unfolding insert_by_rank keep kept_under
  count-insert_by_rank cb [] = refl
  count-insert_by_rank cb (b ∷ bs) =
      elim (Bool-cases (leb (authority_rank b) (authority_rank cb))) [
        | inl first ↦ rw first
        | inr after ↦ rw after (
            length-kept_under (p cb) (p b) cb b (keep p (insert_by_rank cb bs)) (keep p bs)
              (count-insert_by_rank cb bs))
      ]

  pub count-sort_by_rank :
      (bs : List ContextBinding) → length (keep p (sort_by_rank bs)) ≡ length (keep p bs)
  unfolding sort_by_rank keep
  count-sort_by_rank [] = refl
  count-sort_by_rank (b ∷ bs) =
      count-insert_by_rank b (sort_by_rank bs)
      ∙ length-if (p b) b (keep p (sort_by_rank bs)) (keep p bs) (count-sort_by_rank bs)

-- no binding of the list has a greater rank
abbrev pub AtMost : ContextBinding → ContextBinding → Type 0
AtMost top b = authority_rank b ≤ authority_rank top

abbrev pub Headed : List ContextBinding → Type 0
Headed [] = Unit
Headed (top ∷ rest) = All (AtMost top) rest
