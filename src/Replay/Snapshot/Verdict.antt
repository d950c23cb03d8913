-- ===== src/Replay/Snapshot/Verdict.antt =====
-- What the verdict of a strict `replay_snapshot` (src/notary_platform/replay_engine/replay.py) says
-- of the agent, and what `run_mutation` (src/notary_platform/replay_engine/mutation.py) says of a
-- fix.
use notary_platform.Prelude.{
  ℕ, suc, ◌≤◌, String, ◌≡◌, ◌≢◌, ◌↔◌, refl, sym, ap, ◌∙◌, Bool, true, false, not, ◌&&◌, eq_iff,
  Bool-cases, inl, inr, Option, none, some, List, [], ◌∷◌, length, nonempty, nat_eq, get_elem?,
  arith, if◌then◌else◌,
}
use mathlib.Core.Path.{subst}
use notary_platform.Replay.Cassette.{
  Ops, Call, Entry, Element, ResponseCassette, matches, recorded_entries, new_cassette,
  strict_found, missed, served, lookup, unconsumed_count,
}
use notary_platform.Replay.Cassette.Strict.{
  remaining, lookup_strict, missed-Missed, served-Keeps, drop, drop-get_elem?, drop-consumed,
  drop-none, lookup-Advances,
}
use notary_platform.Replay.Snapshot.{
  cassette_sequence, decision_text, of_kind, sequence_after, Agent, done, raises, asks, Outcome,
  returned, raised, ReplayStatus, replayed, escalation_required, error, run_agent, ran, conclude,
  replay_snapshot, run_mutation, same_decision,
}

conclude-clean :
    (original : String) (n : ℕ) (decision : Option String) (c : ResponseCassette)
    → c.misses ≡ []
    → unconsumed_count c ≡ 0
    → (conclude true original n (returned decision, c)).replay_status ≡ replayed
unfolding conclude
conclude-clean original n decision c clean consumed =
    let no_miss : nonempty c.misses ≡ false = ap nonempty clean in
    let none_left : nat_eq (unconsumed_count c) 0 ≡ true = ap (λ n. nat_eq n 0) consumed in
    rw (no_miss, none_left)

-- the calls that the agent makes, in order
unfoldable pub asked : Ops → Agent → ResponseCassette → List Call
unfolding lookup
asked ops (done decision) c = []
asked ops (raises message) c = []
asked ops (asks call next_step) c =
    let (answer, c') = lookup ops call c in call ∷ asked ops (next_step answer) c'

-- each call matches the entry in its place, and there are as many calls as entries
abbrev pub Follows : Ops → List Entry → List Call → Type 0
Follows ops [] [] = Unit
Follows ops [] (call ∷ calls) = ⊥
Follows ops (e ∷ entries) [] = ⊥
Follows ops (e ∷ entries) (call ∷ calls) = (matches ops e call ≡ true) × Follows ops entries calls

run_agent-clean :
    (ops : Ops) (agent : Agent) (c : ResponseCassette) (entries : List Entry)
    → c.strict_order ≡ true
    → remaining c ≡ entries
    → Follows ops entries (asked ops agent c)
    → ((run_agent ops agent c).1.misses ≡ c.misses)
      × (unconsumed_count (run_agent ops agent c).1 ≡ 0)
unfolding run_agent asked unconsumed_count
run_agent-clean ops (done decision) c [] strict left follows =
    (refl, drop-none c.ordered_entries c.cursor left)
run_agent-clean ops (done decision) c (e ∷ entries) strict left follows = absurd follows
run_agent-clean ops (raises message) c [] strict left follows =
    (refl, drop-none c.ordered_entries c.cursor left)
run_agent-clean ops (raises message) c (e ∷ entries) strict left follows = absurd follows
run_agent-clean ops (asks call next_step) c [] strict left follows = absurd follows
run_agent-clean ops (asks call next_step) c (e ∷ entries) strict left follows =
    let (answer, c') = lookup ops call c in
    let a = lookup-Advances ops call c e entries strict left follows.0 in
    let (misses, consumed) =
      run_agent-clean ops (next_step answer) c' entries (a.strict_order ∙ strict) a.left
        follows.1 in
    (misses ∙ a.misses, consumed)

-- A strict replay of any agent ends as replayed, if each of its calls matches the recorded entry in
-- its place, it makes as many calls as there are entries, and it returns a decision or none after
-- them, not an error.
pub strict_replay_accepts :
    (ops : Ops) (elements : List Element) (agent : Agent) (has_callback : Bool)
    (decision : Option String)
    → Follows ops
        (recorded_entries elements)
        (asked ops agent (new_cassette ops elements true has_callback (cassette_sequence elements)))
    → (run_agent ops agent
        (new_cassette ops elements true has_callback (cassette_sequence elements))).0
      ≡ returned decision
    → (replay_snapshot ops elements agent true has_callback).replay_status ≡ replayed
unfolding replay_snapshot ran new_cassette
strict_replay_accepts ops elements agent has_callback decision follows decided =
    let c = new_cassette ops elements true has_callback (cassette_sequence elements) in
    let original = decision_text (of_kind "decision" elements) in
    let after = sequence_after elements in
    let run = run_agent ops agent c in
    let (misses, consumed) =
      run_agent-clean ops agent c (recorded_entries elements) refl refl follows in
    ap (λ o. (conclude true original after (o, run.1)).replay_status) decided
    ∙ conclude-clean original after decision run.1 misses consumed

-- the lookup of a strict cassette: a miss, or the serving of the first of the remaining entries
data Step (ops : Ops) (call : Call) (c c' : ResponseCassette) : Type 0 where
  miss : length c'.misses ≡ suc (length c.misses) → c'.strict_order ≡ true → Step ops call c c'
  serve :
      (e : Entry)
      → matches ops e call ≡ true
      → remaining c ≡ e ∷ remaining c'
      → c'.misses ≡ c.misses
      → c'.strict_order ≡ true
      → Step ops call c c'

Step-missed :
    (ops : Ops) (call : Call) (c : ResponseCassette)
    → c.strict_order ≡ true
    → Step ops call c (missed ops call c).1
Step-missed ops call c strict =
    let m = missed-Missed ops call c in miss m.misses (m.strict_order ∙ strict)

strict_found-Step :
    (ops : Ops) (call : Call) (c : ResponseCassette) (found : Option Entry)
    → c.strict_order ≡ true
    → get_elem? c.ordered_entries c.cursor ≡ found
    → Step ops call c (strict_found ops call c found).1
strict_found-Step ops call c none strict at_cursor = Step-missed ops call c strict
strict_found-Step ops call c (some e) strict at_cursor = elim (Bool-cases (matches ops e call)) [
  | inr out ↦
      subst
        (λ b.
          Step ops call c
            (if b
              then served ops call e (record c { cursor = suc c.cursor })
              else missed ops call c).1)
        (sym out) (Step-missed ops call c strict)
  | inl fits ↦
      let k = served-Keeps ops call e (record c { cursor = suc c.cursor }) in
      subst
        (λ b.
          Step ops call c
            (if b
              then served ops call e (record c { cursor = suc c.cursor })
              else missed ops call c).1)
        (sym fits)
        (serve e fits
          (drop-get_elem? c.ordered_entries c.cursor e at_cursor
            ∙ (λ i. e ∷ drop (sym k.cursor i) (sym k.ordered_entries i)))
          k.misses (k.strict_order ∙ strict))
]

lookup-Step :
    (ops : Ops) (call : Call) (c : ResponseCassette)
    → c.strict_order ≡ true
    → Step ops call c (lookup ops call c).1
lookup-Step ops call c strict =
    subst (λ r. Step ops call c r.1) (sym (lookup_strict ops call c strict))
      (strict_found-Step ops call c _ strict refl)

Step-misses :
    (ops : Ops) (call : Call) (c c' : ResponseCassette)
    → Step ops call c c'
    → (length c.misses ≤ length c'.misses) × (c'.strict_order ≡ true)
Step-misses ops call c c' (miss more strict) = (omega arith, strict)
Step-misses ops call c c' (serve e fits left same strict) =
    let l = ap length same in (omega arith, strict)

run_agent-misses :
    (ops : Ops) (agent : Agent) (c : ResponseCassette)
    → c.strict_order ≡ true
    → length c.misses ≤ length (run_agent ops agent c).1.misses
unfolding run_agent
run_agent-misses ops (done decision) c strict = omega arith
run_agent-misses ops (raises message) c strict = omega arith
run_agent-misses ops (asks call next_step) c strict =
    let (answer, c') = lookup ops call c in
    let (more, strict') = Step-misses ops call c c' (lookup-Step ops call c strict) in
    let rest = run_agent-misses ops (next_step answer) c' strict' in omega arith

Follows-cons :
    (ops : Ops) (call : Call) (c c' : ResponseCassette) (later : ResponseCassette)
    (calls : List Call)
    → Step ops call c c'
    → length c'.misses ≤ length later.misses
    → length later.misses ≡ 0
    → Follows ops (remaining c') calls
    → Follows ops (remaining c) (call ∷ calls)
Follows-cons ops call c c' later calls (miss more strict) grows clean rest = absurd (omega arith)
Follows-cons ops call c c' later calls (serve e fits left same strict) grows clean rest =
    subst (λ entries. Follows ops entries (call ∷ calls)) (sym left) (fits, rest)

run_agent-Follows :
    (ops : Ops) (agent : Agent) (c : ResponseCassette)
    → c.strict_order ≡ true
    → length (run_agent ops agent c).1.misses ≡ 0
    → unconsumed_count (run_agent ops agent c).1 ≡ 0
    → Follows ops (remaining c) (asked ops agent c)
unfolding run_agent asked unconsumed_count
run_agent-Follows ops (done decision) c strict clean consumed =
    subst (λ entries. Follows ops entries [])
      (sym (drop-consumed c.ordered_entries c.cursor consumed)) tt
run_agent-Follows ops (raises message) c strict clean consumed =
    subst (λ entries. Follows ops entries [])
      (sym (drop-consumed c.ordered_entries c.cursor consumed)) tt
run_agent-Follows ops (asks call next_step) c strict clean consumed =
    let (answer, c') = lookup ops call c in
    let step = lookup-Step ops call c strict in
    let strict' = (Step-misses ops call c c' step).1 in
    Follows-cons ops call c c' (run_agent ops (next_step answer) c').1
      (asked ops (next_step answer) c') step (run_agent-misses ops (next_step answer) c' strict')
      clean (run_agent-Follows ops (next_step answer) c' strict' clean consumed)

abbrev is_replayed : ReplayStatus → Bool
is_replayed replayed = true
is_replayed (escalation_required reason) = false
is_replayed (error message) = false

conclude-replayed :
    (original : String) (n : ℕ) (run : Outcome × ResponseCassette)
    → (conclude true original n run).replay_status ≡ replayed
    → (length run.1.misses ≡ 0) × (unconsumed_count run.1 ≡ 0)
unfolding conclude
conclude-replayed original n (raised message, c) h =
    absurd (let b = ap is_replayed h in ground arith)
conclude-replayed original n (returned decision, c) h = elim (Bool-cases (nonempty c.misses)) [
  | inl some_miss ↦ absurd (let b = ap is_replayed (rw some_miss at h) in ground arith)
  | inr clean ↦ elim (Bool-cases (nat_eq (unconsumed_count c) 0)) [
    | inl consumed ↦ (ground arith, ground arith)
    | inr left ↦ absurd (let b = ap is_replayed (rw (clean, left) at h) in ground arith)
  ]
]

-- An agent whose strict replay ends as replayed made exactly the recorded calls: each of its calls
-- matches the recorded entry in its place, and it made as many calls as there are entries.
pub strict_replay_sound :
    (ops : Ops) (elements : List Element) (agent : Agent) (has_callback : Bool)
    → (replay_snapshot ops elements agent true has_callback).replay_status ≡ replayed
    → Follows ops
        (recorded_entries elements)
        (asked ops agent (new_cassette ops elements true has_callback (cassette_sequence elements)))
unfolding replay_snapshot ran new_cassette
strict_replay_sound ops elements agent has_callback h =
    let c = new_cassette ops elements true has_callback (cassette_sequence elements) in
    let (clean, consumed) =
      conclude-replayed (decision_text (of_kind "decision" elements)) (sequence_after elements)
        (run_agent ops agent c) h in
    run_agent-Follows ops agent c refl clean consumed

same_decision_iff : (a b : Option String) → (same_decision a b ≡ true) ↔ (a ≡ b)
same_decision_iff none none = ground arith
same_decision_iff none (some b) = ground arith
same_decision_iff (some a) none = ground arith
same_decision_iff (some a) (some b) = ground (arith, eq_iff a b)

changed_iff :
    (a b expected : Option String)
    → ((not (same_decision a b) && same_decision b expected) ≡ true)
      ↔ ((b ≡ expected) × (a ≢ expected))
changed_iff a b expected =
    let i = same_decision_iff a b in
    let j = same_decision_iff b expected in
    (
      λ h.
          let hb : same_decision b expected ≡ true = ground arith in
          let same = j.0 hb in (same, λ e. let t = i.1 (e ∙ sym same) in ground arith),
      λ h.
          let hb = j.1 h.0 in
          elim (Bool-cases (same_decision a b)) [
            | inl t ↦ absurd (h.1 (i.0 t ∙ h.0))
            | inr t ↦ rw (t, hb)
          ],
    )

-- A fix is reported as mitigating exactly when the fixed agent's replay decides what is expected
-- and the agent's own replay does not.
pub mitigated_iff :
    (ops : Ops) (elements : List Element) (agent fixed : Agent) (expected : String)
    → ((run_mutation ops elements agent fixed expected).mitigated ≡ true) ↔ (
        ((replay_snapshot ops elements fixed false false).decision ≡ some expected)
        × ((replay_snapshot ops elements agent false false).decision ≢ some expected))
unfolding run_mutation
mitigated_iff ops elements agent fixed expected =
    changed_iff (replay_snapshot ops elements agent false false).decision
      (replay_snapshot ops elements fixed false false).decision (some expected)
