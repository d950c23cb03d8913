-- ===== src/Discovery/Context/Resolved.antt =====
-- What `resolve` of src/notary_platform/discovery/context.py records in its trace.
use notary_platform.Prelude.{◌≡◌, ℕ, String, Option, some, List, length, All, map}
use mathlib.Core.Option.{some-injective}
use mathlib.Core.List.{Mem}
use notary_platform.Value.{Draw}
use notary_platform.Records.Binding.{ContextBinding}
use notary_platform.Records.Trace.{ResolutionTrace}
use notary_platform.Records.Evidence.{DecisionEvidenceRecord}
use notary_platform.Storage.{MemoryStorage}
use notary_platform.Discovery.Context.{
  Instant, Times, Selected, nothing_selected, parse_time, given_or, candidates_for, select,
  group_key, finish, resolve,
}
use notary_platform.Discovery.Context.Selection.{chained, decided, InForce, Chosen}
use notary_platform.Discovery.Context.Settled.{Settled}
use notary_platform.Discovery.Context.Authority.{Prevails}

-- Each of the ids is the id of a binding that satisfies `P`.
abbrev pub Named : (ContextBinding → Type 0) → List String → Type 0
Named P ids = All (λ i. (cb : ContextBinding) × (cb.id ≡ i) × P cb) ids

-- what a trace says of the bindings that `select` chose
pub record Justified (times : Times) (dt : Instant) (s : MemoryStorage)
    (candidates : List ContextBinding) (chosen : Selected) (trace : ResolutionTrace) : Type 0 where
  pub selected : select times dt s candidates nothing_selected ≡ some chosen
  pub decided_once : decided chosen ≡ length candidates
  pub chosen_from :
      All (Chosen times dt s (λ candidate. Mem candidate candidates)) chosen.included_bindings
  pub excluded_named : trace.excluded_bindings ≡ map (λ b. b.id) chosen.excluded_bindings
  pub superseded_named : trace.superseded_bindings ≡ map (λ b. b.id) chosen.superseded_bindings
  pub included_named :
      Named
        (λ cb.
          (Mem cb chosen.included_bindings × InForce times dt cb)
          × Prevails chosen.included_bindings cb)
        trace.included_bindings
  pub settled :
      All
        (λ cb.
          Settled chosen.included_bindings (λ w. Mem w.id trace.included_bindings) (group_key cb))
        chosen.included_bindings

abbrev pub IsJustified :
    Times → Instant → MemoryStorage → List ContextBinding → ResolutionTrace → Type 0
IsJustified times dt s candidates trace =
    (chosen : Selected) × Justified times dt s candidates chosen trace

module _ (times : Times) (draw : ℕ → Draw) (der : DecisionEvidenceRecord) (org_id : String)
    (decision_time subject_scope subject_selector : Option String) (s s' : MemoryStorage)
    (trace : ResolutionTrace) where
  abbrev pub decision : Instant
  decision = parse_time times (given_or decision_time der.created_at)

  abbrev pub candidates : List ContextBinding
  candidates =
      candidates_for org_id (given_or subject_scope der.decision_identity)
        (given_or subject_selector "") s

  pub resolve-finish :
      resolve times draw der org_id decision_time subject_scope subject_selector s
        ≡ some (trace, s')
      → (chosen : Selected) × (select times decision s candidates nothing_selected ≡ some chosen)
        × (finish draw der org_id s chosen ≡ (trace, s'))
  unfolding resolve
  resolve-finish h =
      let (chosen, found, done) =
        chained (select times decision s candidates nothing_selected) _ (trace, s') h in
      (chosen, found, some-injective _ _ done)
