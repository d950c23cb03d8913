-- ===== src/Replay/Cassette/Recorded.antt =====
-- Lookups by signature in `ResponseCassette` (src/notary_platform/replay_engine/cassette.py),
-- where the order of the calls is not checked.
use notary_platform.Prelude.{
  get_elem?, ℕ, String, ◌≡◌, refl, ap, ◌∙◌, Bool, false, ◌==◌, some, List, [], ◌∷◌, ◌++◌, All,
  if◌then◌else◌,
}
use notary_platform.Dict.{Dict, get, put, get-put, get-put_self}
use notary_platform.Replay.Cassette.{
  strict_found, served_if_some, Ops, Call, Entry, Element, ResponseCassette, answer_of,
  call_signature, recorded_entries, entries_from, new_cassette, entry_for, served, lookup,
}

entries_from-append :
    (ops : Ops) (d : Dict Entry) (xs ys : List Entry)
    → entries_from ops d (xs ++ ys) ≡ entries_from ops (entries_from ops d xs) ys
unfolding entries_from
entries_from-append ops d [] ys = refl
entries_from-append ops d (x ∷ xs) ys =
    entries_from-append ops (put (call_signature ops x.call) x d) xs ys

-- No entry of the list has the signature.
abbrev pub Apart : Ops → String → List Entry → Type 0
Apart ops signature entries = All (λ e. (call_signature ops e.call == signature) ≡ false) entries

get-entries_from :
    (ops : Ops) (signature : String) (d : Dict Entry) (xs : List Entry)
    → Apart ops signature xs
    → get signature (entries_from ops d xs) ≡ get signature d
unfolding entries_from
get-entries_from ops signature d [] apart = refl
get-entries_from ops signature d (x ∷ xs) apart =
    let k = call_signature ops x.call in
    get-entries_from ops signature (put k x d) xs apart.1
    ∙ (get-put k signature x d ∙ ap (λ b. if b then some x else get signature d) apart.0)

served_answer :
    (ops : Ops) (call : Call) (e : Entry) (c : ResponseCassette)
    → (served ops call e c).0 ≡ some (answer_of e)
unfolding served
served_answer ops call e c = refl

entry_for-hit :
    (ops : Ops) (call : Call) (e : Entry) (d : Dict Entry)
    → get (call_signature ops call) d ≡ some e
    → entry_for ops call d ≡ some e
unfolding entry_for
entry_for-hit ops call e d found = rw found

lookup-hit :
    (ops : Ops) (call : Call) (e : Entry) (c : ResponseCassette)
    → c.strict_order ≡ false
    → get (call_signature ops call) c.entries ≡ some e
    → (lookup ops call c).0 ≡ some (answer_of e)
unfolding lookup
lookup-hit ops call e c loose found =
    ap
      (λ b.
        (if b
          then strict_found ops call c (get_elem? c.ordered_entries c.cursor)
          else served_if_some ops call (entry_for ops call c.entries) c).0)
      loose
    ∙ (ap (λ g. (served_if_some ops call g c).0) (entry_for-hit ops call e c.entries found)
        ∙ served_answer ops call e c)

-- Without strict order a recorded call is answered with its recorded response, wherever it stands
-- in the snapshot, unless a later recorded call has the same signature.
pub recorded_call_answered :
    (ops : Ops) (elements : List Element) (has_callback : Bool) (sequence : ℕ)
    (before after : List Entry) (e : Entry)
    → recorded_entries elements ≡ before ++ e ∷ after
    → Apart ops (call_signature ops e.call) after
    → (lookup ops e.call (new_cassette ops elements false has_callback sequence)).0
      ≡ some (answer_of e)
unfolding new_cassette entries_from
recorded_call_answered ops elements has_callback sequence before after e recorded apart =
    let k = call_signature ops e.call in
    let d = entries_from ops [] before in
    lookup-hit ops e.call e (new_cassette ops elements false has_callback sequence) refl (
      ap (λ es. get k (entries_from ops [] es)) recorded
      ∙ (ap (get k) (entries_from-append ops [] before (e ∷ after))
          ∙ (get-entries_from ops k (put k e d) after apart ∙ get-put_self k e d)))
