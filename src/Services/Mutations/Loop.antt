-- ===== src/Services/Mutations/Loop.antt =====
-- The whole loop of a proof: `promote` of src/notary_platform/sweep/bridge.py, and then `run_mutation`
-- of src/notary_platform/services/services.py on the record that the promotion made.
use notary_platform.Prelude.{
  String, ◌≡◌, refl, sym, ap, ◌∙◌, eq_iff, eq_refl, true, ◌==◌, ◌||◌, ◌&&◌, ◌<>◌, Bool-cases,
  Option-cases, inl, inr, Option, some, nonblank, nonblank-append, arith, last, elem, [], ◌∷◌,
}
use mathlib.Core.Path.{subst}
use mathlib.Core.Option.{some-injective}
use notary_platform.Dict.{get}
use notary_platform.Value.{Fields}
use notary_platform.Protocol.Digest.{Outcome, value}
use notary_platform.Records.Candidate.{AssuranceCandidate}
use notary_platform.Records.Evidence.{DecisionEvidenceRecord}
use notary_platform.Storage.{get_assurance_candidate, get_decision_evidence_record}
use notary_platform.Replay.Snapshot.{Mutation}
use notary_platform.Services.Labels.{ProofStorage, stored_vr}
use notary_platform.Services.Mutations.{is_lineage_of, run_mutation_test}
use notary_platform.Services.Mutations.Levels.{Proven, verified-Proven}
use notary_platform.Services.Replays.Stored.{lineage_in}
use notary_platform.Sweep.Bridge.{Authority, Clock, lookup_if, in_environment}
use notary_platform.Sweep.Bridge.Lineage.{HasRecord, eligible_lem, record_of}
use notary_platform.Sweep.Promotion.{
  BridgeLineage, BridgeStorage, BridgeTexts, LinkedRun, linked_runs, get_incident,
}
use notary_platform.Sweep.Promotion.Bundle.{bridge_key_of, incident_id_of}
use notary_platform.Sweep.Promotion.Promote.{promote_new, Promoted, promoted, promote}
use notary_platform.Sweep.Promotion.Incidents.{bridged_record, lineage_of}
use notary_platform.Sweep.Promotion.Again.{made, bundle_made, new_done, new_own, new_sweep}
use notary_platform.Sweep.Promotion.Origin.{promote-NewFrom, record_stored, incident_stored}

HasRecord-evidence :
    (c : AssuranceCandidate) (org_id id : String) (found : Option DecisionEvidenceRecord)
    (der : DecisionEvidenceRecord)
    → HasRecord c org_id (lookup_if id found)
    → found ≡ some der
    → ((der.org_id == org_id) ≡ true) × (in_environment der.environment_id c ≡ true)
HasRecord-evidence c org_id id found der has e = elim (Bool-cases (nonblank id)) [
  | inl f ↦ rw (f, e) at has
  | inr f ↦ absurd (rw f at has)
]

high_level :
    (level : String)
    → elem level ("E3" ∷ "E4" ∷ []) ≡ true
    → (level == "E3" || level == "E4") ≡ true
unfolding elem
high_level level h = ground arith

pub incident_id_of-nonblank :
    (t : BridgeTexts) (key : String) → nonblank (incident_id_of t key) ≡ true
unfolding incident_id_of
incident_id_of-nonblank t key = nonblank-append "inc-bridge-" _ refl

later_key :
    (t later : BridgeTexts) (c : AssuranceCandidate)
    → later.sha256 ≡ t.sha256
    → bridge_key_of later c ≡ bridge_key_of t c
unfolding bridge_key_of
later_key t later c digest =
    ap (λ f. "bridge-" <> f (c.org_id <> "|" <> c.environment_id <> "|" <> c.id)) digest

-- the record, the lineage and the candidate of a promotion belong together
lineage_matches :
    (t later : BridgeTexts) (c : AssuranceCandidate) (der : DecisionEvidenceRecord)
    (org_id : String)
    → later.sha256 ≡ t.sha256
    → (c.org_id == org_id) ≡ true
    → (der.org_id == org_id) ≡ true
    → in_environment der.environment_id c ≡ true
    → (c.org_id == org_id
        && der.org_id == org_id
        && (c.environment_id == der.environment_id && der.environment_id == c.environment_id)
        && c.id == c.id
        && c.der_id == c.der_id
        && bridge_key_of t c == bridge_key_of later c)
      ≡ true
lineage_matches t later c der org_id digest own der_own here =
    let there : (der.environment_id == c.environment_id) ≡ true = ground arith in
    let back : (c.environment_id == der.environment_id) ≡ true =
      (eq_iff _ _).1 (sym ((eq_iff _ _).0 there)) in
    let same_key = (eq_iff _ _).1 (sym (later_key t later c digest)) in
    rw (own, der_own, back, there, eq_refl c.id, eq_refl c.der_id, same_key) refl

module _ (t : BridgeTexts) (c : AssuranceCandidate) (der : DecisionEvidenceRecord)
    (authority : Authority) (org_id key : String) (s : BridgeStorage) where
  abbrev lineage_made : BridgeLineage
  lineage_made =
      let sealed = bundle_made t c der authority org_id key s in
      lineage_of c der sealed.id authority sealed.subjects

  -- an incident keeps the promotion's lineage when what follows leaves it
  lineage_found :
      (p : Promoted) (b after : BridgeStorage)
      → promote_new t c der authority org_id key s ≡ (promoted p, b)
      → lineage_in (get_incident p.incident_ref after) ≡ lineage_in (get_incident p.incident_ref b)
      → lineage_in (get_incident (incident_id_of t key) after) ≡ some lineage_made
  unfolding bridged_record lineage_of
  lineage_found p b after by_new kept =
      let ref : p.incident_ref ≡ incident_id_of t key =
        ap (λ (q : Promoted). q.incident_ref)
          (sym (new_done t c der authority org_id key s p b by_new)) in
      subst (λ r. lineage_in (get_incident r after) ≡ lineage_in (get_incident r b)) ref kept
      ∙ ap lineage_in (incident_stored t c der authority org_id key s p b by_new)

  -- a fix of the promoted record raises the candidate, in a storage that still holds them
  promoted-Proven :
      (later : BridgeTexts) (p : Promoted) (b : BridgeStorage) (after : ProofStorage)
      (run : LinkedRun) (engine : String → Outcome Mutation) (m : Mutation) (fix_config : Fields)
      (given : String)
      → promote_new t c der authority org_id key s ≡ (promoted p, b)
      → after.bridge.vrs ≡ b.vrs
      → lineage_in (get_incident p.incident_ref after.bridge)
        ≡ lineage_in (get_incident p.incident_ref b)
      → last (linked_runs p.verification_record_id after.bridge) ≡ some run
      → (run.status == "replayed") ≡ true
      → nonblank given ≡ true
      → engine given ≡ value m
      → m.mitigated ≡ true
      → get_assurance_candidate c.id after.bridge.sweep ≡ some c
      → get_decision_evidence_record c.der_id after.bridge.sweep ≡ some der
      → is_lineage_of later org_id (made t c der authority org_id key s) lineage_made c der ≡ true
      → (c.evidence_level == "E3" || c.evidence_level == "E4") ≡ true
      → Proven c.id
          (run_mutation_test later engine p.verification_record_id org_id fix_config given after)
  unfolding bridged_record stored_vr lineage_of
  promoted-Proven later p b after run engine m fix_config given by_new same_vrs same_lineage has_run
        replayed expected answered mitigated has_c has_der matches level =
      let stored : get p.verification_record_id after.bridge.vrs
          ≡ some (made t c der authority org_id key s) =
        ap (get p.verification_record_id) same_vrs
        ∙ record_stored t c der authority org_id key s p b by_new in
      let own = new_own t c der authority org_id key s p b by_new in
      let named = lineage_found p b after.bridge by_new same_lineage in
      elim (Option-cases (get_incident (incident_id_of t key) after.bridge)) [
        | inl gone ↦ absurd (let none_named = rw gone at named in ground arith)
        | inr (incident, there) ↦
            verified-Proven later org_id fix_config engine m p.verification_record_id given after
              (made t c der authority org_id key s) run incident lineage_made c der stored own
              has_run replayed expected answered mitigated (incident_id_of-nonblank t key) there
              (rw there at named) has_c has_der matches level
      ]

-- A candidate that is promoted, whose record then has a replay that reproduced it, reaches the
-- highest evidence level when a fix is tested and mitigates: the test is verified and the candidate,
-- stored under its own id, has level E4. What happened since the promotion has left the verification
-- records, the sweep's collections and the lineage of the promotion's incident; the test has its own
-- clock and draws with the digest of the promotion.
pub proof_loop :
    (clock : Clock) (t later : BridgeTexts) (candidate_id org_id : String) (s : BridgeStorage)
    (p : Promoted) (b : BridgeStorage) (c : AssuranceCandidate) (after : ProofStorage)
    (run : LinkedRun) (engine : String → Outcome Mutation) (m : Mutation) (fix_config : Fields)
    (given : String)
    → promote clock t candidate_id org_id s ≡ some (promoted p, b)
    → p.is_new_record ≡ true
    → get_assurance_candidate candidate_id s.sweep ≡ some c
    → c.id ≡ candidate_id
    → later.sha256 ≡ t.sha256
    → after.bridge.vrs ≡ b.vrs
    → after.bridge.sweep ≡ b.sweep
    → lineage_in (get_incident p.incident_ref after.bridge)
      ≡ lineage_in (get_incident p.incident_ref b)
    → last (linked_runs p.verification_record_id after.bridge) ≡ some run
    → (run.status == "replayed") ≡ true
    → nonblank given ≡ true
    → engine given ≡ value m
    → m.mitigated ≡ true
    → Proven candidate_id
        (run_mutation_test later engine p.verification_record_id org_id fix_config given after)
unfolding record_of bridged_record lineage_of stored_vr
proof_loop clock t later candidate_id org_id s p b c after run engine m fix_config given h is_new
      found keyed digest same_vrs same_sweep same_lineage has_run replayed expected answered
      mitigated =
    let new = promote-NewFrom clock t candidate_id org_id s p b h is_new in
    let from = new.0 in
    let same : from.source ≡ c = some-injective _ _ (sym from.has_source ∙ found) in
    let source_id : from.source.id ≡ candidate_id =
      ap (λ (x : AssuranceCandidate). x.id) same ∙ keyed in
    let key = bridge_key_of t from.source in
    let behind = eligible_lem clock candidate_id org_id s.sweep from.source from.has_source new.1 in
    let der =
      HasRecord-evidence from.source org_id from.source.der_id
        (get_decision_evidence_record from.source.der_id s.sweep) from.evidence behind.1.0
        from.has_evidence in
    let swept =
      same_sweep
      ∙ new_sweep t from.source from.evidence from.authority org_id key s p b from.by_new in
    let has_candidate : get_assurance_candidate from.source.id after.bridge.sweep
        ≡ some from.source =
      ap (get_assurance_candidate from.source.id) swept
      ∙ ap (λ k. get_assurance_candidate k s.sweep) source_id
      ∙ from.has_source in
    let has_der : get_decision_evidence_record from.source.der_id after.bridge.sweep
        ≡ some from.evidence =
      ap (get_decision_evidence_record from.source.der_id) swept ∙ from.has_evidence in
    subst
      (λ k.
        Proven k
          (run_mutation_test later engine p.verification_record_id org_id fix_config given after))
      source_id
      (promoted-Proven t from.source from.evidence from.authority org_id key s later p b after run
        engine m fix_config given from.by_new same_vrs same_lineage has_run replayed expected
        answered mitigated has_candidate has_der
        (lineage_matches t later from.source from.evidence org_id digest behind.0 der.0 der.1)
        (high_level from.source.evidence_level behind.1.1.1.0))
