-- ===== src/Discovery/Assembly/Agreement.antt =====
-- The record that `build` of src/notary_platform/discovery/evidence_records.py leaves in the storage.
use notary_platform.Prelude.{
  map, ◌≡◌, refl, sym, ap, ◌∙◌, eq_iff, ℕ, suc, ◌⊎◌, ◌==◌, String, true, false, Bool-cases, inl,
  inr, Option, none, some, List, [], nonblank, arith,
}
use mathlib.Core.Path.{subst}
use mathlib.Core.Option.{some-injective}
use notary_platform.Dict.{Dict, get-put_self, or_else}
use notary_platform.Value.{Draw}
use notary_platform.Records.Evidence.{DecisionEvidenceRecord}
use notary_platform.Records.Trace.{ResolutionTrace}
use notary_platform.Storage.{
  MemoryStorage, create_decision_evidence_record, get_decision_evidence_record,
  get_resolution_trace, create_resolution_trace,
}
use notary_platform.Discovery.Identity
use notary_platform.Discovery.Identity.{Texts}
use notary_platform.Discovery.Identity.Precedence.{resolve-links}
use notary_platform.Records.Link.{LinkAssertion}
use notary_platform.Discovery.Context
use notary_platform.Discovery.Context.Resolved.{resolve-finish}
use notary_platform.Discovery.Context.{
  Times, Selected, given_or, with_trace, finish, trace_of, select, nothing_selected, parse_time,
  candidates_for,
}
use notary_platform.Discovery.Context.Selection.{chained}
use notary_platform.Discovery.Assembly.{
  assembled, build_stored, build, get_record, get_found, final_record,
}

-- What the storage holds for a record, as the service reads it.
pub record Agrees (org_id : String) (der : DecisionEvidenceRecord) (s : MemoryStorage)
    : Type 0 where
  pub readable : get_record der.id org_id s ≡ some der
  pub trace : ResolutionTrace
  pub traced : get_resolution_trace der.resolution_trace_id s ≡ some trace
  pub of_record : trace.der_id ≡ der.id
  pub same_bindings : trace.included_bindings ≡ der.context_binding_ids

get_record-create :
    (org_id : String) (x : DecisionEvidenceRecord) (s : MemoryStorage)
    → x.org_id ≡ org_id
    → get_record x.id org_id (create_decision_evidence_record x s) ≡ some x
unfolding get_record get_decision_evidence_record create_decision_evidence_record
get_record-create org_id x s own =
    rw (get-put_self x.id x s.decision_evidence_records, (eq_iff x.org_id org_id).1 own)

stored-Agrees :
    (trace : ResolutionTrace) (der : DecisionEvidenceRecord) (org_id : String) (s : MemoryStorage)
    → der.org_id ≡ org_id
    → trace.der_id ≡ der.id
    → Agrees org_id
        (with_trace trace der)
        (create_decision_evidence_record (with_trace trace der) (create_resolution_trace trace s))
unfolding with_trace get_resolution_trace create_resolution_trace create_decision_evidence_record
stored-Agrees trace der org_id s own of_der = record {
  readable = get_record-create org_id (with_trace trace der) (create_resolution_trace trace s) own;
  trace = trace;
  traced = get-put_self trace.id trace s.resolution_traces;
  of_record = of_der;
  same_bindings = refl;
}

finish-Agrees :
    (draw : ℕ → Draw) (der : DecisionEvidenceRecord) (org_id : String) (s : MemoryStorage)
    (chosen : Selected)
    → der.org_id ≡ org_id
    → Agrees org_id
        (with_trace (finish draw der org_id s chosen).0 der)
        (finish draw der org_id s chosen).1
unfolding finish trace_of
finish-Agrees draw der org_id s chosen own = stored-Agrees _ der org_id _ own refl

resolve-Agrees :
    (times : Times) (draw : ℕ → Draw) (der : DecisionEvidenceRecord) (org_id : String)
    (decision_time : Option String) (s s' : MemoryStorage) (trace : ResolutionTrace)
    → der.org_id ≡ org_id
    → Context.resolve times draw der org_id decision_time none none s ≡ some (trace, s')
    → Agrees org_id (with_trace trace der) s'
resolve-Agrees times draw der org_id decision_time s s' trace own h =
    let (chosen, found, done) =
      resolve-finish times draw der org_id decision_time none none s s' trace h in
    subst (λ p. Agrees org_id (with_trace p.0 der) p.1) done
      (finish-Agrees draw der org_id s chosen own)

get_found-some :
    (org_id : String) (o : Option DecisionEvidenceRecord) (x : DecisionEvidenceRecord)
    → get_found org_id o ≡ some x
    → o ≡ some x
get_found-some org_id none x h = absurd (ground arith)
get_found-some org_id (some y) x h = elim (Bool-cases (y.org_id == org_id)) [
  | inl own ↦ rw own at h
  | inr other ↦ absurd (let none_some : none ≡ some x = rw other at h in ground arith)
]

final_record-Agrees :
    (org_id : String) (created : DecisionEvidenceRecord) (s : MemoryStorage)
    → get_record created.id org_id s ≡ some created
    → final_record created s ≡ (created, s)
unfolding get_record
final_record-Agrees org_id created s readable =
    ap (λ o. (or_else o created, s))
      (get_found-some org_id (get_decision_evidence_record created.id s) created readable)

-- What `build` returns is the record it assembled, with the trace's bindings, and the storage agrees
-- with it, where there is an identity to resolve; or the record as it was assembled.
abbrev Built : DecisionEvidenceRecord → String → DecisionEvidenceRecord → MemoryStorage → Type 0
Built created org_id der s =
    (Agrees org_id der s × ((trace : ResolutionTrace) × (der ≡ with_trace trace created)))
    ⊎ ((nonblank created.decision_identity ≡ false) × (der ≡ created))

build_stored-Built :
    (times : Times) (draw : ℕ → Draw) (created : DecisionEvidenceRecord) (org_id : String)
    (decision_time : Option String) (s s' : MemoryStorage) (der : DecisionEvidenceRecord)
    → created.org_id ≡ org_id
    → build_stored times draw created org_id decision_time
        (create_decision_evidence_record created s)
      ≡ some (der, s')
    → Built created org_id der s'
build_stored-Built times draw created org_id decision_time s s' der own h =
    elim (Bool-cases (nonblank created.decision_identity)) [
      | inl named ↦
          let ((trace, s''), resolved, done) =
            chained
              (Context.resolve times (λ k. draw (suc k)) created org_id
                (some (given_or decision_time created.created_at)) none none
                (create_decision_evidence_record created s))
              _ (der, s') (rw named at h) in
          let agrees =
            resolve-Agrees times (λ k. draw (suc k)) created org_id _ _ s'' trace own resolved in
          let same =
            sym (final_record-Agrees org_id (with_trace trace created) s'' agrees.readable)
            ∙ some-injective _ _ done in
          inl (subst (λ p. Agrees org_id p.0 p.1) same agrees, (trace, sym (ap (λ p. p.0) same)))
      | inr blank ↦
          let done : some (final_record created (create_decision_evidence_record created s))
              ≡ some (der, s') =
            rw blank at h in
          inr (
            blank,
            sym (
                ap (λ p. p.0)
                  (sym (
                      final_record-Agrees org_id created _ (get_record-create org_id created s own))
                    ∙ some-injective _ _ done)),
          )
    ]

module _ (texts : Texts) (times : Times) (draw : ℕ → Draw) (resource_ids : List String)
    (org_id : String) (decision_time : Option String) (namespace_mappings : Dict String)
    (s s' : MemoryStorage) (der : DecisionEvidenceRecord) where
  build-Built :
      build texts times draw resource_ids org_id decision_time namespace_mappings s ≡ some (der, s')
      → Built
          (assembled
            (draw 0)
            org_id
            resource_ids
            (Identity.resolve texts resource_ids org_id namespace_mappings s)
            s)
          org_id
          der
          s'
  unfolding build assembled
  build-Built h = build_stored-Built times draw _ org_id decision_time s s' der refl h

  -- A record that was built with an identity is one the storage agrees with: the service reads it
  -- back under its id, its trace is stored, is the trace of this record, and includes the bindings of
  -- the record.
  pub build-Agrees :
      build texts times draw resource_ids org_id decision_time namespace_mappings s ≡ some (der, s')
      → nonblank der.decision_identity ≡ true
      → Agrees org_id der s'
  build-Agrees h named = elim (build-Built h) [
    | inl (agrees, made) ↦ agrees
    | inr (blank, same) ↦ absurd (let named' = rw same at named in ground arith)
  ]

  -- A record that was built names no link assertion, whatever links the storage has.
  pub build-link_assertion_ids :
      build texts times draw resource_ids org_id decision_time namespace_mappings s ≡ some (der, s')
      → der.link_assertion_ids ≡ []
  unfolding assembled with_trace
  build-link_assertion_ids h =
      let none_named =
        ap (map (λ (la : LinkAssertion). la.id))
          (resolve-links texts resource_ids org_id namespace_mappings s) in
      elim (build-Built h) [
        | inl (agrees, (trace, same)) ↦ ap (λ d. d.link_assertion_ids) same ∙ none_named
        | inr (blank, same) ↦ ap (λ d. d.link_assertion_ids) same ∙ none_named
      ]
