-- ===== src/Sweep/Sufficiency/Report.antt =====
-- What `calculate` of src/notary_platform/sweep/sufficiency.py reports beside the level: the
-- satisfied conditions, the failed ones, and what the next level requires.
use notary_platform.Prelude.{
  ◌∙◌, sym, ◌≡◌, refl, ◌↔◌, Bool, true, false, not, arith, length, nonempty, if◌then◌else◌,
}
use notary_platform.Sweep.Evidence.{FrozenDecisionEvidenceRecord, ResolvedContext}
use notary_platform.Sweep.Sufficiency.{
  e0_ok, e1_ok, e2_ok, e3_ok, e4_ok, line_if, satisfied_lines, failed_lines, calculate,
}
use notary_platform.Sweep.Sufficiency.Levels.{rank, height, rank-calculate}

length-line_if : (b : Bool) (line : _) → length (line_if b line) ≡ (if b then 1 else 0)
length-line_if true line = refl
length-line_if false line = refl

module _ (r : FrozenDecisionEvidenceRecord) (c : ResolvedContext) (replayed verified : Bool) where
  length-satisfied :
      length (calculate r c replayed verified).satisfied
      ≡ height (e0_ok r) (e1_ok r c) (e2_ok r c) (e3_ok r c replayed) (e4_ok r c replayed verified)
  unfolding calculate satisfied_lines e1_ok e2_ok e3_ok e4_ok
  length-satisfied = ground arith

  -- One line is reported as satisfied for each level that is reached.
  pub length-satisfied-eq-rank :
      length (calculate r c replayed verified).satisfied
      ≡ rank (calculate r c replayed verified).current_level
  length-satisfied-eq-rank = length-satisfied ∙ sym (rank-calculate r c replayed verified)

  nonempty-failed :
      nonempty (calculate r c replayed verified).failed ≡ not (e4_ok r c replayed verified)
  unfolding calculate failed_lines e1_ok e2_ok e3_ok e4_ok
  nonempty-failed = ground arith

  -- Nothing is reported as failed exactly when the record is at E4.
  pub failed-empty_iff :
      (nonempty (calculate r c replayed verified).failed ≡ false)
      ↔ (rank (calculate r c replayed verified).current_level ≡ 5)
  failed-empty_iff = rw (nonempty-failed, rank-calculate r c replayed verified) (ground arith)
