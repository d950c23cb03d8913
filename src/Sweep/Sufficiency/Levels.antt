-- ===== src/Sweep/Sufficiency/Levels.antt =====
-- Which evidence level `calculate` of src/notary_platform/sweep/sufficiency.py reaches.
use notary_platform.Prelude.{
  ℕ, ◌≤◌, String, ◌≡◌, refl, ap, ◌↔◌, Bool, true, false, ◌&&◌, ◌==◌, arith, if◌then◌else◌, nonblank,
  nonempty,
}
use notary_platform.Sweep.Evidence.{FrozenDecisionEvidenceRecord, ResolvedContext}
use notary_platform.Sweep.Sufficiency.{
  e0_ok, e1_ok, e2_ok, e3_ok, e4_ok, has_context, determine_level, calculate,
  recalculate_after_verification,
}

-- The order of the levels: no level is 0, E0 is 1, and so on to 5 for E4.
abbrev pub rank : String → ℕ
rank level =
    if level == "E4"
    then 5
    else if level == "E3"
    then 4
    else if level == "E2"
    then 3
    else if level == "E1"
    then 2
    else if level == "E0"
    then 1
    else 0

abbrev pub height : Bool → Bool → Bool → Bool → Bool → ℕ
height e0 e1 e2 e3 e4 =
    if e4 then 5 else if e3 then 4 else if e2 then 3 else if e1 then 2 else if e0 then 1 else 0

rank-determine_level :
    (e0 e1 e2 e3 e4 : Bool) → rank (determine_level e0 e1 e2 e3 e4).0 ≡ height e0 e1 e2 e3 e4
unfolding determine_level
rank-determine_level e0 e1 e2 e3 true = refl
rank-determine_level e0 e1 e2 true false = refl
rank-determine_level e0 e1 true false false = refl
rank-determine_level e0 true false false false = refl
rank-determine_level true false false false false = refl
rank-determine_level false false false false false = refl

module _ (r : FrozenDecisionEvidenceRecord) (c : ResolvedContext) (replayed verified : Bool) where
  pub rank-calculate :
      rank (calculate r c replayed verified).current_level
      ≡ height (e0_ok r) (e1_ok r c) (e2_ok r c) (e3_ok r c replayed) (e4_ok r c replayed verified)
  rank-calculate =
      unfold calculate in
      rank-determine_level (e0_ok r) (e1_ok r c) (e2_ok r c) (e3_ok r c replayed)
        (e4_ok r c replayed verified)

  -- A record is at E4 exactly when an observation is attributed to it, a context binding applies
  -- with no conflicted binding, the context is authoritative or corroborated, the evidence has
  -- been sealed (version at least 1), and both the replay and the mutation have succeeded.
  pub calculate-E4 : (rank (calculate r c replayed verified).current_level ≡ 5) ↔ (
      (e0_ok r ≡ true)
      × (nonempty r.context_binding_ids ≡ true)
      × (nonempty c.conflicted_bindings ≡ false)
      × (has_context c ≡ true)
      × (1 ≤ r.version)
      × (replayed ≡ true)
      × (verified ≡ true))
  unfolding e1_ok e2_ok e3_ok e4_ok
  calculate-E4 = ground (arith, rank-calculate)

  -- Each level contains those below it: the level is at least Ek exactly when the conditions of
  -- Ek hold.
  pub calculate_levels :
      ((1 ≤ rank (calculate r c replayed verified).current_level) ↔ (e0_ok r ≡ true))
      × ((2 ≤ rank (calculate r c replayed verified).current_level) ↔ (e1_ok r c ≡ true))
      × ((3 ≤ rank (calculate r c replayed verified).current_level) ↔ (e2_ok r c ≡ true))
      × ((4 ≤ rank (calculate r c replayed verified).current_level) ↔ (e3_ok r c replayed ≡ true))
      × ((5 ≤ rank (calculate r c replayed verified).current_level)
          ↔ (e4_ok r c replayed verified ≡ true))
  unfolding e1_ok e2_ok e3_ok e4_ok
  calculate_levels = ground (arith, rank-calculate)

  -- A conflicted context binding keeps a record at E0 or below, whatever else is known of it.
  pub conflict_caps_level :
      nonempty c.conflicted_bindings ≡ true
      → rank (calculate r c replayed verified).current_level ≤ 1
  unfolding e1_ok e2_ok e3_ok e4_ok
  conflict_caps_level h = ground (arith, rank-calculate)

height_mono :
    (e0 e1 e2 e3 e4 e3' e4' : Bool)
    → (e3 ≡ true → e3' ≡ true)
    → (e4 ≡ true → e4' ≡ true)
    → height e0 e1 e2 e3 e4 ≤ height e0 e1 e2 e3' e4'
height_mono e0 e1 e2 e3 e4 e3' e4' h k = ground arith

module _ (r : FrozenDecisionEvidenceRecord) (c : ResolvedContext)
    (replayed verified replayed' verified' : Bool) (h : replayed ≡ true → replayed' ≡ true)
    (k : verified ≡ true → verified' ≡ true) where
  e3_ok_mono : e3_ok r c replayed ≡ true → e3_ok r c replayed' ≡ true
  unfolding e3_ok
  e3_ok_mono e = ground arith

  e4_ok_mono : e4_ok r c replayed verified ≡ true → e4_ok r c replayed' verified' ≡ true
  unfolding e4_ok
  e4_ok_mono e = ground (arith, e3_ok_mono)

  -- More verification never lowers the level.
  pub calculate_mono :
      rank (calculate r c replayed verified).current_level
      ≤ rank (calculate r c replayed' verified').current_level
  calculate_mono =
      rw (rank-calculate r c replayed verified, rank-calculate r c replayed' verified')
        (height_mono (e0_ok r) (e1_ok r c) (e2_ok r c) (e3_ok r c replayed)
          (e4_ok r c replayed verified) (e3_ok r c replayed') (e4_ok r c replayed' verified')
          e3_ok_mono e4_ok_mono)

recalculate-determine_level :
    (e0 e1 e2 e3 replayed verified : Bool)
    → recalculate_after_verification (determine_level e0 e1 e2 e3 false).0 replayed verified
      ≡ (determine_level e0 e1 e2 e3 (e3 && (replayed && verified))).0
unfolding determine_level recalculate_after_verification
recalculate-determine_level e0 e1 e2 true true true = refl
recalculate-determine_level e0 e1 e2 true true false = refl
recalculate-determine_level e0 e1 e2 true false verified = refl
recalculate-determine_level e0 e1 true false replayed verified = refl
recalculate-determine_level e0 true false false replayed verified = refl
recalculate-determine_level true false false false replayed verified = refl
recalculate-determine_level false false false false replayed verified = refl

module _ (r : FrozenDecisionEvidenceRecord) (c : ResolvedContext) (replayed verified : Bool) where
  e3_ok_traced : nonblank r.resolution_trace_id ≡ true → e3_ok r c replayed ≡ e3_ok r c false
  unfolding e3_ok
  e3_ok_traced h = ground arith

  e4_ok_unverified : e4_ok r c false false ≡ false
  unfolding e4_ok
  e4_ok_unverified = ground arith

  -- Raising a level that was frozen before verification gives the level that a full calculation
  -- with the verification gives, when the record has a resolution trace.
  pub recalculate-calculate :
      nonblank r.resolution_trace_id ≡ true
      → recalculate_after_verification (calculate r c false false).current_level replayed verified
        ≡ (calculate r c replayed verified).current_level
  unfolding calculate
  recalculate-calculate h =
      let final : e4_ok r c replayed verified ≡ (e3_ok r c false && (replayed && verified)) =
        unfold e4_ok in ap (λ b. b && (replayed && verified)) (e3_ok_traced h) in
      rw (e4_ok_unverified, final, e3_ok_traced h)
        (recalculate-determine_level (e0_ok r) (e1_ok r c) (e2_ok r c) (e3_ok r c false) replayed
          verified)
