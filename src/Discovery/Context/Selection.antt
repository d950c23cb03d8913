-- ===== src/Discovery/Context/Selection.antt =====
-- What `resolve` of src/notary_platform/discovery/context.py does with the candidates: where each
-- one goes, and when an included binding is in force.
use notary_platform.Prelude.{
  ◌≡◌, refl, ap, ℕ, ◌+◌, String, Bool, true, false, Option, Bool-cases, none, some, List, [], ◌∷◌,
  length, length-append, All, All-append, arith, inl, inr, nonblank, if◌then◌else◌, not, ◌&&◌, ◌==◌,
}
use mathlib.Core.Path.{subst}
use mathlib.Core.Option.{some-injective}
use notary_platform.Dict.{or_else}
use notary_platform.Value.{◌>>=◌}
use notary_platform.Records.Binding.{ContextBinding}
use notary_platform.Storage.{MemoryStorage, get_context_binding}
use notary_platform.Discovery.Context.{
  Instant, Times, Verdict, included, excluded, superseded, redacted, unavailable, Selected,
  is_before, is_past, negated, earlier, parse_time, judge, judge_early, judge_late, judge_content,
  place, select, superseder_of, superseder_found, artifact_available,
}

module _ {A B : Type 0} where
  -- a chain of two optional results that gives a value has a first result
  pub chained :
      (o : Option A) (f : A → Option B) (b : B)
      → (o >>= f) ≡ some b
      → (a : A) × (o ≡ some a) × (f a ≡ some b)
  chained none f b h = absurd (ground arith)
  chained (some a) f b h = (a, refl, h)

abbrev pub decided : Selected → ℕ
decided acc = length acc.included_bindings + length acc.excluded_bindings

decided-place :
    (cb : ContextBinding) (v : Verdict) (acc : Selected)
    → decided (place cb v acc) ≡ 1 + decided acc
unfolding place
decided-place cb included acc = omega (arith, length-append acc.included_bindings (cb ∷ []))
decided-place cb (excluded reason) acc =
    omega (arith, length-append acc.excluded_bindings (cb ∷ []))
decided-place cb (superseded b) acc = omega (arith, length-append acc.included_bindings (b ∷ []))
decided-place cb redacted acc = omega (arith, length-append acc.excluded_bindings (cb ∷ []))
decided-place cb unavailable acc = omega (arith, length-append acc.excluded_bindings (cb ∷ []))

-- Every candidate is decided once: those included or replaced by a binding that is included, and
-- those excluded, are together as many as the candidates, beside what was decided before.
pub decided-select :
    (times : Times) (dt : Instant) (s : MemoryStorage) (candidates : List ContextBinding)
    (acc chosen : Selected)
    → select times dt s candidates acc ≡ some chosen
    → decided chosen ≡ length candidates + decided acc
unfolding select
decided-select times dt s [] acc chosen h =
    let same = ap decided (some-injective _ _ h) in omega arith
decided-select times dt s (cb ∷ rest) acc chosen h =
    let (v, judged, later) = chained (judge times dt s cb) _ chosen h in
    omega
      (arith, decided-select times dt s rest (place cb v acc) chosen later, decided-place cb v acc)

-- what is known of a binding that was included
abbrev pub InForce : Times → Instant → ContextBinding → Type 0
InForce times dt cb = is_before times dt cb.effective_from ≡ some false

negated-false : (o : Option Bool) → negated o ≡ some true → o ≡ some false
negated-false none h = absurd (ground arith)
negated-false (some b) h = ground arith

past-not_before :
    (times : Times) (dt : Instant) (bound : String)
    → is_past times dt bound ≡ some true
    → is_before times dt bound ≡ some false
unfolding is_past is_before
past-not_before times dt bound h = elim (Bool-cases (nonblank bound)) [
  | inl given ↦
      let compared : negated (earlier dt (parse_time times bound)) ≡ some true = rw given at h in
      rw given (negated-false (earlier dt (parse_time times bound)) compared)
  | inr blank ↦ rw blank
]

module _ (times : Times) (dt : Instant) (s : MemoryStorage) where
  kept-InForce :
      (past : Bool) (b superseder : ContextBinding)
      → is_past times dt b.effective_from ≡ some past
      → Path
          (Option (Option ContextBinding))
          (some (if past then some b else none))
          (some (some superseder))
      → InForce times dt superseder
  kept-InForce true b superseder h same =
      subst (InForce times dt) (some-injective _ _ (some-injective _ _ same))
        (past-not_before times dt b.effective_from h)
  kept-InForce false b superseder h same =
      absurd (let none_some = some-injective _ _ same in ground arith)

  found-InForce :
      (o : Option ContextBinding) (superseder : ContextBinding)
      → superseder_found times dt o ≡ some (some superseder)
      → InForce times dt superseder
  found-InForce none superseder h = absurd (let none_some = some-injective _ _ h in ground arith)
  found-InForce (some b) superseder h =
      let (past, read, kept) = chained (is_past times dt b.effective_from) _ (some superseder) h in
      kept-InForce past b superseder read kept

  superseder_of-InForce :
      (cb superseder : ContextBinding)
      → superseder_of times dt s cb ≡ some (some superseder)
      → InForce times dt superseder
  unfolding superseder_of
  superseder_of-InForce cb superseder h = elim (Bool-cases (nonblank cb.superseded_by)) [
    | inl named ↦ found-InForce (get_context_binding cb.superseded_by s) superseder (rw named at h)
    | inr blank ↦ absurd (let none_some = some-injective _ _ (rw blank at h) in ground arith)
  ]

  -- The candidate has started and has not ended, and it is included itself, or the binding that
  -- supersedes it at the time of the decision is.
  pub record From (candidate cb : ContextBinding) : Type 0 where
    pub has_started : is_before times dt candidate.effective_from ≡ some false
    pub lasting : is_past times dt candidate.effective_until ≡ some false
    pub successor : Option ContextBinding
    pub found : superseder_of times dt s candidate ≡ some successor
    pub stands : or_else successor candidate ≡ cb

  abbrev VerdictFrom : ContextBinding → Verdict → Type 0
  VerdictFrom cb included = From cb cb
  VerdictFrom cb (superseded b) = From cb b
  VerdictFrom cb _ = Unit

  content-From :
      (cb : ContextBinding) (superseder : Option ContextBinding)
      → is_before times dt cb.effective_from ≡ some false
      → is_past times dt cb.effective_until ≡ some false
      → superseder_of times dt s cb ≡ some superseder
      → VerdictFrom cb (judge_content times s cb superseder)
  content-From cb (some b) early late h = record {
    has_started = early;
    lasting = late;
    successor = some b;
    found = h;
    stands = refl;
  }
  content-From cb none early late h = elim (Bool-cases (cb.binding_type == "redacted")) [
    | inl hidden ↦ rw hidden tt
    | inr open_type ↦
        rw open_type
          (elim (Bool-cases
            (nonblank cb.artifact_ref && not (artifact_available times s cb.artifact_ref))) [
              | inl gone ↦ rw gone tt
              | inr there ↦ rw there (record {
                has_started = early;
                lasting = late;
                successor = none;
                found = h;
                stands = refl;
              })
            ])
  ]

  late-From :
      (cb : ContextBinding) (late : Bool) (v : Verdict)
      → is_before times dt cb.effective_from ≡ some false
      → is_past times dt cb.effective_until ≡ some late
      → judge_late times dt s cb late ≡ some v
      → VerdictFrom cb v
  late-From cb true v early past h = subst (VerdictFrom cb) (some-injective _ _ h) tt
  late-From cb false v early past h =
      let (superseder, found, same) = chained (superseder_of times dt s cb) _ v h in
      subst (VerdictFrom cb) (some-injective _ _ same) (content-From cb superseder early past found)

  early-From :
      (cb : ContextBinding) (early : Bool) (v : Verdict)
      → is_before times dt cb.effective_from ≡ some early
      → judge_early times dt s cb early ≡ some v
      → VerdictFrom cb v
  early-From cb true v read h = subst (VerdictFrom cb) (some-injective _ _ h) tt
  early-From cb false v read h =
      let (late, past, rest) = chained (is_past times dt cb.effective_until) _ v h in
      late-From cb late v read past rest

  judge-From : (cb : ContextBinding) (v : Verdict) → judge times dt s cb ≡ some v → VerdictFrom cb v
  unfolding judge
  judge-From cb v h =
      let (early, read, rest) = chained (is_before times dt cb.effective_from) _ v h in
      early-From cb early v read rest

  -- an included binding has itself started
  stood-InForce :
      (candidate cb : ContextBinding) (successor : Option ContextBinding)
      → is_before times dt candidate.effective_from ≡ some false
      → superseder_of times dt s candidate ≡ some successor
      → or_else successor candidate ≡ cb
      → InForce times dt cb
  stood-InForce candidate cb none started found same = subst (InForce times dt) same started
  stood-InForce candidate cb (some b) started found same =
      subst (InForce times dt) same (superseder_of-InForce candidate b found)

  pub From-InForce : (candidate cb : ContextBinding) → From candidate cb → InForce times dt cb
  From-InForce candidate cb f =
      stood-InForce candidate cb f.successor f.has_started f.found f.stands

  module _ (R : ContextBinding → Type 0) where
    -- the binding comes from a candidate that satisfies `R`
    abbrev pub Chosen : ContextBinding → Type 0
    Chosen cb = (candidate : ContextBinding) × R candidate × From candidate cb

    abbrev pub AllChosen : Selected → Type 0
    AllChosen acc = All Chosen acc.included_bindings

    place-AllChosen :
        (cb : ContextBinding) (v : Verdict) (acc : Selected)
        → R cb
        → VerdictFrom cb v
        → AllChosen acc
        → AllChosen (place cb v acc)
    unfolding place
    place-AllChosen cb included acc known here h =
        All-append Chosen acc.included_bindings (cb ∷ []) h ((cb, known, here), tt)
    place-AllChosen cb (excluded reason) acc known here h = h
    place-AllChosen cb (superseded b) acc known here h =
        All-append Chosen acc.included_bindings (b ∷ []) h ((cb, known, here), tt)
    place-AllChosen cb redacted acc known here h = h
    place-AllChosen cb unavailable acc known here h = h

    pub select-AllChosen :
        (candidates : List ContextBinding) (acc chosen : Selected)
        → All R candidates
        → AllChosen acc
        → select times dt s candidates acc ≡ some chosen
        → AllChosen chosen
    unfolding select
    select-AllChosen [] acc chosen known all h = subst AllChosen (some-injective _ _ h) all
    select-AllChosen (cb ∷ rest) acc chosen known all h =
        let (v, judged, later) = chained (judge times dt s cb) _ chosen h in
        select-AllChosen rest (place cb v acc) chosen known.1
          (place-AllChosen cb v acc known.0 (judge-From cb v judged) all) later
