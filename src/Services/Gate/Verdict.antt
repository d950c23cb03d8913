-- ===== src/Services/Gate/Verdict.antt =====
-- When the release gate of src/notary_platform/services/services.py lets a release pass.
use notary_platform.Prelude.{
  ◌≡◌, ◌⊎◌, inl, inr, refl, sym, ap, ◌∙◌, eq_iff, String, Bool, true, false, not, ◌&&◌, ◌==◌,
  Option, none, some, Bool-cases, List, [], ◌∷◌, if◌then◌else◌, nonempty, keep, map, All,
  &&-eq-true, arith,
}
use notary_platform.Dict.{get}
use notary_platform.Value.{Fields}
use notary_platform.Protocol.Digest.{Outcome, value, raised}
use notary_platform.Certificates.{Signing}
use notary_platform.Services.Gate.{
  Scenario, ScenarioRunResult, ScenarioRun, ReadinessPolicy, ReadinessCheck, ProofCertificate,
  GateStorage, GateDraw, Left, create_scenario_run, get_scenario, get_readiness_policy,
}
use notary_platform.Services.Gate.Run.{
  Replays, judged, not_found, run_record, run_found, run_one, run_ids, ids_or_active, run,
  with_status,
}
use notary_platform.Services.Gate.Check.{
  readiness_verdict, failing_of, errored_of, certified, check_run, check_of, check_policy,
  run_check, gate_of, check_release,
}

apart : (a b : String) → (a == b) ≡ false → a ≡ b → ⊥
apart a b differ same = let e = (eq_iff a b).1 same in ground arith

abbrev got_value : {A : Type 0} → A → Outcome A → A
got_value d (value a) = a
got_value d (raised message) = d

-- a result of one of the three statuses that the code writes
abbrev Concluded : ScenarioRunResult → Type 0
Concluded r = (r.status ≡ "passed") ⊎ (r.status ≡ "failed") ⊎ (r.status ≡ "errored")

judged-Concluded : (scenario : Scenario) (o : Outcome String) → Concluded (judged scenario o)
judged-Concluded scenario (raised message) = inr (inr refl)
judged-Concluded scenario (value actual) = elim (Bool-cases (actual == scenario.expected_outcome)) [
  | inl same ↦ inl (rw same)
  | inr other ↦ inr (inl (rw other))
]

without_status :
    (status : String) (results : List ScenarioRunResult)
    → nonempty (with_status status results) ≡ false
    → All (λ r. (r.status == status) ≡ false) results
unfolding with_status keep
without_status status [] h = tt
without_status status (r ∷ rest) h = elim (Bool-cases (r.status == status)) [
  | inl same ↦ absurd (let h' = rw same at h in ground arith)
  | inr other ↦ (other, without_status status rest (rw other at h))
]

not_true→false : (b : Bool) → not b ≡ true → b ≡ false
not_true→false b h = ground arith

passed-readiness_verdict :
    (results : List ScenarioRunResult)
    → readiness_verdict results ≡ "passed"
    → (nonempty (failing_of results) ≡ false) × (nonempty (errored_of results) ≡ false)
passed-readiness_verdict results h =
    elim (Bool-cases (not (nonempty (failing_of results)) && not (nonempty (errored_of results)))) [
      | inl both ↦
          let (fine, clean) = &&-eq-true _ _ both in (not_true→false _ fine, not_true→false _ clean)
      | inr other ↦ absurd (apart "failed" "passed" refl (rw other at h))
    ]

-- what is known of a result whose status is one of the three and neither of the other two
only_passed :
    (r : ScenarioRunResult)
    → Concluded r
    → (r.status == "failed") ≡ false
    → (r.status == "errored") ≡ false
    → r.status ≡ "passed"
only_passed r (inl passed) fine clean = passed
only_passed r (inr (inl failed)) fine clean = absurd (apart r.status "failed" fine failed)
only_passed r (inr (inr failed)) fine clean = absurd (apart r.status "errored" clean failed)

either-Concluded :
    (b : Bool) (x y : ScenarioRunResult)
    → Concluded x
    → Concluded y
    → Concluded (if b then x else y)
either-Concluded true x y hx hy = hx
either-Concluded false x y hx hy = hy

module _ {V : Type 0} (replays : Replays V) where
  record-Concluded :
      (scenario : Scenario) (fix_config : Fields) (vr : Option V)
      → Concluded (run_record replays scenario fix_config vr)
  record-Concluded scenario fix_config none = inr (inr refl)
  record-Concluded scenario fix_config (some vr) =
      judged-Concluded scenario (replays scenario vr fix_config)

  found-Concluded :
      (org_id sid : String) (fix_config : Fields) (s : GateStorage V) (o : Option Scenario)
      → Concluded (run_found replays org_id sid fix_config s o)
  found-Concluded org_id sid fix_config s none = inr (inr refl)
  found-Concluded org_id sid fix_config s (some scenario) =
      either-Concluded (not (scenario.org_id == org_id)) (not_found sid)
        (run_record replays scenario fix_config (get scenario.source_vr_id s.vrs)) (inr (inr refl))
        (record-Concluded scenario fix_config (get scenario.source_vr_id s.vrs))

  run_one-Concluded :
      (org_id : String) (fix_config : Fields) (s : GateStorage V) (sid : String)
      → Concluded (run_one replays org_id fix_config s sid)
  unfolding run_one
  run_one-Concluded org_id fix_config s sid =
      found-Concluded org_id sid fix_config s (get_scenario sid s)

  module _ (org_id : String) (fix_config : Fields) (s : GateStorage V) where
    abbrev pub Passes : String → Type 0
    Passes sid = (run_one replays org_id fix_config s sid).status ≡ "passed"

    All-Passes :
        (ids : List String)
        → All (λ r. (r.status == "failed") ≡ false) (map (run_one replays org_id fix_config s) ids)
        → All (λ r. (r.status == "errored") ≡ false) (map (run_one replays org_id fix_config s) ids)
        → All Passes ids
    All-Passes [] fine clean = tt
    All-Passes (sid ∷ ids) fine clean = (
      only_passed (run_one replays org_id fix_config s sid)
          (run_one-Concluded org_id fix_config s sid) fine.0 clean.0,
      All-Passes ids fine.1 clean.1,
    )

    readiness_verdict-Passes :
        (ids : List String)
        → readiness_verdict (map (run_one replays org_id fix_config s) ids) ≡ "passed"
        → All Passes ids
    readiness_verdict-Passes ids h =
        let (fine, clean) =
          passed-readiness_verdict (map (run_one replays org_id fix_config s) ids) h in
        All-Passes ids (without_status "failed" _ fine) (without_status "errored" _ clean)

    -- a run that gives a result has ids, and has run each of them
    run_ids-results :
        (draw : GateDraw) (agent_version environment_id : String) (ids : List String)
        (r : ScenarioRun)
        → (run_ids replays draw agent_version org_id environment_id fix_config s ids).0 ≡ value r
        → (nonempty ids ≡ true) × (r.results ≡ map (run_one replays org_id fix_config s) ids)
    unfolding run_one create_scenario_run
    run_ids-results draw agent_version environment_id [] r h = absurd (ground arith)
    run_ids-results draw agent_version environment_id (sid ∷ ids) r h =
        (refl, ap (λ o. (got_value r o).results) (sym h))

  module _ (signing : Signing) (draw : GateDraw) (agent_version org_id environment_id : String)
      (fix_config : Fields) where
    certified-verdict :
        (check check' : ReadinessCheck) (issued : Left V ProofCertificate) (s' : GateStorage V)
        → certified replays signing check issued ≡ (value check', s')
        → check'.verdict ≡ check.verdict
    certified-verdict check check' (raised message, s) s' h =
        absurd (let h' = ap (λ p. p.0) h in ground arith)
    certified-verdict check check' (value cert, s) s' h =
        ap (λ p. (got_value check p.0).verdict) (sym h)

    -- the run that a check was made of, and the verdict over its results
    check_run-verdict :
        (policy : ReadinessPolicy) (left : Left V ScenarioRun) (check : ReadinessCheck)
        (s' : GateStorage V)
        → check_run replays signing draw org_id environment_id agent_version policy left
          ≡ (value check, s')
        → (r : ScenarioRun) × (left.0 ≡ value r) × (check.verdict ≡ readiness_verdict r.results)
    check_run-verdict policy (raised message, s) check s' h =
        absurd (let h' = ap (λ p. p.0) h in ground arith)
    check_run-verdict policy (value r, s) check s' h =
        elim (Bool-cases (readiness_verdict r.results == "passed")) [
          | inl passed ↦ (
            r,
            refl,
            certified-verdict (check_of draw org_id environment_id agent_version policy r) check _
                s' (rw passed at h),
          )
          | inr other ↦ (r, refl, ap (λ p. (got_value check p.0).verdict) (sym (rw other at h)))
        ]

    -- what is known of a check that was made of a policy of the organization
    record PassedPolicy (policy_id : String) (s : GateStorage V) (verdict : String) : Type 0 where
      pub policy : ReadinessPolicy
      pub found : get_readiness_policy policy_id s ≡ some policy
      pub own : policy.org_id ≡ org_id
      pub enabled : policy.enabled ≡ true
      pub has_scenarios :
          nonempty (ids_or_active replays policy.required_scenario_ids org_id environment_id s)
          ≡ true
      pub passes :
          verdict ≡ "passed"
          → All
              (Passes org_id fix_config s)
              (ids_or_active replays policy.required_scenario_ids org_id environment_id s)

    run_policy :
        (policy_id : String) (policy : ReadinessPolicy) (s : GateStorage V) (check : ReadinessCheck)
        (r : ScenarioRun)
        → get_readiness_policy policy_id s ≡ some policy
        → policy.org_id ≡ org_id
        → policy.enabled ≡ true
        → (run replays draw policy.required_scenario_ids agent_version org_id environment_id
            fix_config s).0
          ≡ value r
        → check.verdict ≡ readiness_verdict r.results
        → PassedPolicy policy_id s check.verdict
    unfolding run
    run_policy policy_id policy s check r found own enabled ran verdict =
        let ids = ids_or_active replays policy.required_scenario_ids org_id environment_id s in
        let (given, results) =
          run_ids-results org_id fix_config s draw agent_version environment_id ids r ran in
        record {
          policy = policy;
          found = found;
          own = own;
          enabled = enabled;
          has_scenarios = given;
          passes = λ passed.
              readiness_verdict-Passes org_id fix_config s ids
                (ap readiness_verdict (sym results) ∙ sym verdict ∙ passed);
        }

    found-PassedPolicy :
        (policy_id : String) (s s' : GateStorage V) (check : ReadinessCheck)
        (o : Option ReadinessPolicy)
        → get_readiness_policy policy_id s ≡ o
        → check_policy replays signing draw agent_version org_id environment_id fix_config s o
          ≡ (value check, s')
        → PassedPolicy policy_id s check.verdict
    found-PassedPolicy policy_id s s' check none e h =
        absurd (let h' = ap (λ p. p.0) h in ground arith)
    found-PassedPolicy policy_id s s' check (some policy) e h =
        elim (Bool-cases (policy.org_id == org_id)) [
          | inl own ↦ elim (Bool-cases policy.enabled) [
            | inl enabled ↦
                let ran =
                  run replays draw policy.required_scenario_ids agent_version org_id environment_id
                    fix_config s in
                let (r, made, verdict) =
                  check_run-verdict policy ran check s' (rw (own, enabled) at h) in
                run_policy policy_id policy s check r e ((eq_iff _ _).0 own) enabled made verdict
            | inr disabled ↦
                absurd
                  (let h' = rw (own, disabled) at h in let h'' = ap (λ p. p.0) h' in ground arith)
          ]
          | inr foreign ↦
              absurd (let h' = rw foreign at h in let h'' = ap (λ p. p.0) h' in ground arith)
        ]

    -- what a release that passes has behind it
    pub record Released (policy_id : String) (s : GateStorage V) : Type 0 where
      pub policy : ReadinessPolicy
      pub found : get_readiness_policy policy_id s ≡ some policy
      pub own : policy.org_id ≡ org_id
      pub enabled : policy.enabled ≡ true
      pub has_scenarios :
          nonempty (ids_or_active replays policy.required_scenario_ids org_id environment_id s)
          ≡ true
      pub all_pass :
          All
            (Passes org_id fix_config s)
            (ids_or_active replays policy.required_scenario_ids org_id environment_id s)

    released :
        (policy_id : String) (s : GateStorage V) (verdict : String)
        → PassedPolicy policy_id s verdict
        → verdict ≡ "passed"
        → Released policy_id s
    released policy_id s verdict p passed = record {
      policy = p.policy;
      found = p.found;
      own = p.own;
      enabled = p.enabled;
      has_scenarios = p.has_scenarios;
      all_pass = p.passes passed;
    }

    gate_of-pass :
        (policy_id : String) (left : Left V ReadinessCheck)
        → (gate_of replays signing draw policy_id agent_version org_id left).0.status ≡ "pass"
        → (check : ReadinessCheck) × (s' : GateStorage V) × (left ≡ (value check, s'))
          × (check.verdict ≡ "passed")
    gate_of-pass policy_id (raised message, s) h = absurd (apart "error" "pass" refl h)
    gate_of-pass policy_id (value check, s) h = elim (Bool-cases (check.verdict == "passed")) [
      | inl passed ↦ (check, s, refl, (eq_iff _ _).0 passed)
      | inr other ↦ absurd (apart "fail" "pass" refl (rw other at h))
    ]

    -- A release passes the gate only under an enabled policy of the organization, with at least one
    -- scenario to run, and only if the result of each scenario that is run is "passed".
    pub check_release-Released :
        (policy_id : String) (s : GateStorage V)
        → (check_release replays signing draw policy_id agent_version org_id environment_id
            fix_config s).0.status
          ≡ "pass"
        → Released policy_id s
    unfolding check_release run_check
    check_release-Released policy_id s h =
        let (check, s', checked, passed) =
          gate_of-pass policy_id
            (check_policy replays signing draw agent_version org_id environment_id fix_config s
              (get_readiness_policy policy_id s))
            h in
        released policy_id s check.verdict
          (found-PassedPolicy policy_id s s' check (get_readiness_policy policy_id s) refl checked)
          passed
