-- ===== src/Replay/Cassette/Strict.antt =====
-- The strict order of `ResponseCassette.lookup` (src/notary_platform/replay_engine/cassette.py).
use notary_platform.Prelude.{
  ◌<>◌, ℕ, zero, suc, ◌+◌, ◌-◌, String, ◌≡◌, refl, sym, ap, ◌∙◌, true, eq_refl, Bool-cases, inl,
  inr, Option, none, some, List, [], ◌∷◌, ◌++◌, length, length-append, get_elem?, arith, map,
  if◌then◌else◌,
}
use mathlib.Core.Path.{subst}
use notary_platform.Replay.Cassette.{
  served_if_some, entry_for, Ops, Call, Entry, ResponseCassette, matches, same_body, answer_of,
  missed, served, strict_found, lookup, lookups, unconsumed_count, emit_event, emit_miss_event,
  emit_response_event,
}

same_body_refl : (body : Option String) → same_body body body ≡ true
same_body_refl none = refl
same_body_refl (some body) = eq_refl body

matches_self : (ops : Ops) (e : Entry) → matches ops e e.call ≡ true
unfolding matches
matches_self ops e =
    rw (eq_refl (ops.upper e.call.method), eq_refl e.call.url, same_body_refl e.call.body)

-- Whatever an emission does, these are kept.
pub record Keeps (c c' : ResponseCassette) : Type 0 where
  pub ordered_entries : c'.ordered_entries ≡ c.ordered_entries
  pub cursor : c'.cursor ≡ c.cursor
  pub strict_order : c'.strict_order ≡ c.strict_order
  pub misses : c'.misses ≡ c.misses

emit_event-Keeps :
    (actual status : String) (ops : Ops) (call : Call) (c : ResponseCassette)
    → Keeps c (emit_event actual status ops call c)
unfolding emit_event
emit_event-Keeps actual status ops call c = elim (Bool-cases c.has_callback) [
  | inl e ↦ record { ordered_entries = rw e; cursor = rw e; strict_order = rw e; misses = rw e }
  | inr e ↦ record { ordered_entries = rw e; cursor = rw e; strict_order = rw e; misses = rw e }
]

-- a miss and a serving, as far as the counters go
pub record Missed (c c' : ResponseCassette) : Type 0 where
  pub misses : length c'.misses ≡ suc (length c.misses)
  pub cursor : c'.cursor ≡ c.cursor
  pub ordered_entries : c'.ordered_entries ≡ c.ordered_entries
  pub strict_order : c'.strict_order ≡ c.strict_order

pub missed-Missed :
    (ops : Ops) (call : Call) (c : ResponseCassette) → Missed c (missed ops call c).1
unfolding missed emit_miss_event
missed-Missed ops call c =
    let miss = record call { method = ops.upper call.method } in
    let k =
      emit_event-Keeps "no recorded response" "escalation_required" ops call
        (record c { misses = c.misses ++ (miss ∷ []) }) in
    record {
      misses = ap length k.misses ∙ (let l = length-append c.misses (miss ∷ []) in omega arith);
      cursor = k.cursor;
      ordered_entries = k.ordered_entries;
      strict_order = k.strict_order;
    }

pub served-Keeps :
    (ops : Ops) (call : Call) (e : Entry) (c : ResponseCassette) → Keeps c (served ops call e c).1
unfolding served emit_response_event
served-Keeps ops call e c =
    emit_event-Keeps ("status=" <> ops.str e.status <> "; response returned") "pass" ops call c

strict_found_counts :
    (ops : Ops) (call : Call) (c : ResponseCassette) (found : Option Entry)
    → let c' = (strict_found ops call c found).1 in
      (c'.cursor + length c'.misses ≡ suc (c.cursor + length c.misses))
      × (c'.ordered_entries ≡ c.ordered_entries)
strict_found_counts ops call c none =
    let m = missed-Missed ops call c in
    let l = m.misses in let k = m.cursor in (omega arith, m.ordered_entries)
strict_found_counts ops call c (some e) = elim (Bool-cases (matches ops e call)) [
  | inl fits ↦
      let k = served-Keeps ops call e (record c { cursor = suc c.cursor }) in
      let l = ap length k.misses in let n = k.cursor in rw fits (omega arith, k.ordered_entries)
  | inr other ↦
      let m = missed-Missed ops call c in
      let l = m.misses in let k = m.cursor in rw other (omega arith, m.ordered_entries)
]

pub lookup_strict :
    (ops : Ops) (call : Call) (c : ResponseCassette)
    → c.strict_order ≡ true
    → lookup ops call c ≡ strict_found ops call c (get_elem? c.ordered_entries c.cursor)
unfolding lookup
lookup_strict ops call c strict =
    ap
      (λ b.
        if b
        then strict_found ops call c (get_elem? c.ordered_entries c.cursor)
        else served_if_some ops call (entry_for ops call c.entries) c)
      strict

-- Each lookup of a strict cassette either serves the entry at the cursor or records one miss:
-- together the cursor and the misses count the calls, and the recorded entries never change.
pub lookup_counts :
    (ops : Ops) (call : Call) (c : ResponseCassette)
    → c.strict_order ≡ true
    → let c' = (lookup ops call c).1 in
      (c'.cursor + length c'.misses ≡ suc (c.cursor + length c.misses))
      × (c'.ordered_entries ≡ c.ordered_entries)
lookup_counts ops call c strict =
    subst
      (λ r.
        (r.1.cursor + length r.1.misses ≡ suc (c.cursor + length c.misses))
        × (r.1.ordered_entries ≡ c.ordered_entries))
      (sym (lookup_strict ops call c strict))
      (strict_found_counts ops call c (get_elem? c.ordered_entries c.cursor))

abbrev pub drop : {A : Type 0} → ℕ → List A → List A
drop zero xs = xs
drop (suc n) [] = []
drop (suc n) (x ∷ xs) = drop n xs

abbrev tail : {A : Type 0} → List A → List A
tail [] = []
tail (x ∷ xs) = xs

get_elem?-drop :
    {A : Type 0} (xs : List A) (n : ℕ) (y : A) (ys : List A)
    → drop n xs ≡ y ∷ ys
    → get_elem? xs n ≡ some y
get_elem?-drop [] zero y ys e = absurd (ground arith)
get_elem?-drop [] (suc n) y ys e = absurd (ground arith)
get_elem?-drop (x ∷ xs) zero y ys e = ground arith
get_elem?-drop (x ∷ xs) (suc n) y ys e = get_elem?-drop xs n y ys e

pub drop-get_elem? :
    {A : Type 0} (xs : List A) (n : ℕ) (x : A)
    → get_elem? xs n ≡ some x
    → drop n xs ≡ x ∷ drop (suc n) xs
drop-get_elem? [] n x e = absurd (ground arith)
drop-get_elem? (y ∷ ys) zero x e = ground arith
drop-get_elem? (y ∷ ys) (suc n) x e = drop-get_elem? ys n x e

pub drop-consumed : {A : Type 0} (xs : List A) (n : ℕ) → length xs - n ≡ 0 → drop n xs ≡ []
drop-consumed [] zero e = refl
drop-consumed [] (suc n) e = refl
drop-consumed (x ∷ xs) zero e = absurd (omega arith)
drop-consumed (x ∷ xs) (suc n) e = drop-consumed xs n (omega arith)

drop-suc : {A : Type 0} (xs : List A) (n : ℕ) → drop (suc n) xs ≡ tail (drop n xs)
drop-suc [] zero = refl
drop-suc [] (suc n) = refl
drop-suc (x ∷ xs) zero = refl
drop-suc (x ∷ xs) (suc n) = drop-suc xs n

pub drop-none : {A : Type 0} (xs : List A) (n : ℕ) → drop n xs ≡ [] → length xs - n ≡ 0
drop-none [] n e = omega arith
drop-none (x ∷ xs) zero e = absurd (ground arith)
drop-none (x ∷ xs) (suc n) e = let r = drop-none xs n e in omega arith

-- the entries that a strict cassette has yet to serve
abbrev pub remaining : ResponseCassette → List Entry
remaining c = drop c.cursor c.ordered_entries

served_answer :
    (ops : Ops) (e : Entry) (c : ResponseCassette)
    → (served ops e.call e (record c { cursor = suc c.cursor })).0 ≡ some (answer_of e)
unfolding served
served_answer ops e c = refl

-- a call that matches the first of the remaining entries is served with it
lookup-matching :
    (ops : Ops) (call : Call) (c : ResponseCassette) (e : Entry) (rest : List Entry)
    → c.strict_order ≡ true
    → remaining c ≡ e ∷ rest
    → matches ops e call ≡ true
    → lookup ops call c ≡ served ops call e (record c { cursor = suc c.cursor })
lookup-matching ops call c e rest strict next_up fits =
    let found = get_elem?-drop c.ordered_entries c.cursor e rest next_up in
    let served_next = record c { cursor = suc c.cursor } in
    lookup_strict ops call c strict
    ∙ (ap (strict_found ops call c) found
        ∙ ap (λ b. if b then served ops call e served_next else missed ops call c) fits)

-- then the entries after it remain, and no miss is added
pub record Advances (c c' : ResponseCassette) (rest : List Entry) : Type 0 where
  pub left : remaining c' ≡ rest
  pub misses : c'.misses ≡ c.misses
  pub strict_order : c'.strict_order ≡ c.strict_order

Keeps-Advances :
    (c c' : ResponseCassette) (e : Entry) (rest : List Entry)
    → remaining c ≡ e ∷ rest
    → Keeps (record c { cursor = suc c.cursor }) c'
    → Advances c c' rest
Keeps-Advances c c' e rest next_up k = record {
  left =
      (λ i. drop (k.cursor i) (k.ordered_entries i))
      ∙ (drop-suc c.ordered_entries c.cursor ∙ ap tail next_up);
  misses = k.misses;
  strict_order = k.strict_order;
}

pub lookup-Advances :
    (ops : Ops) (call : Call) (c : ResponseCassette) (e : Entry) (rest : List Entry)
    → c.strict_order ≡ true
    → remaining c ≡ e ∷ rest
    → matches ops e call ≡ true
    → Advances c (lookup ops call c).1 rest
lookup-Advances ops call c e rest strict next_up fits =
    let served_next = record c { cursor = suc c.cursor } in
    Keeps-Advances c (lookup ops call c).1 e rest next_up (
      subst (λ r. Keeps served_next r.1)
        (sym (lookup-matching ops call c e rest strict next_up fits))
        (served-Keeps ops call e served_next))

lookup-next :
    (ops : Ops) (c : ResponseCassette) (e : Entry) (rest : List Entry)
    → c.strict_order ≡ true
    → remaining c ≡ e ∷ rest
    → ((lookup ops e.call c).0 ≡ some (answer_of e)) × Advances c (lookup ops e.call c).1 rest
lookup-next ops c e rest strict next_up =
    let fits = matches_self ops e in
    (
      ap (λ r. r.0) (lookup-matching ops e.call c e rest strict next_up fits)
          ∙ served_answer ops e c,
      lookup-Advances ops e.call c e rest strict next_up fits,
    )

-- The calls that were recorded, made again in their order, are each answered with what was
-- recorded for them: no miss is added and no entry is left over.
pub strict_replay :
    (ops : Ops) (rest : List Entry) (c : ResponseCassette)
    → c.strict_order ≡ true
    → remaining c ≡ rest
    → let replayed = lookups ops (map (λ e. e.call) rest) c in
      (replayed.0 ≡ map (λ e. some (answer_of e)) rest)
      × ((replayed.1.misses ≡ c.misses) × (unconsumed_count replayed.1 ≡ 0))
unfolding lookups unconsumed_count
strict_replay ops [] c strict left = (refl, (refl, drop-none c.ordered_entries c.cursor left))
strict_replay ops (e ∷ rest) c strict left =
    let (answered, k) = lookup-next ops c e rest strict left in
    let c' = (lookup ops e.call c).1 in
    let (answers, (misses, none_left)) =
      strict_replay ops rest c' (k.strict_order ∙ strict) k.left in
    ((λ i. answered i ∷ answers i), (misses ∙ k.misses, none_left))
