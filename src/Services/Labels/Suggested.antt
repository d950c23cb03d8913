-- ===== src/Services/Labels/Suggested.antt =====
-- What a suggested label does to a record, by `create_label` of
-- src/notary_platform/services/services.py.
use notary_platform.Prelude.{
  ℕ, String, ◌≡◌, refl, ap, ◌∙◌, Bool, true, false, ◌==◌, Option, none, some, nonblank,
}
use mathlib.Core.Path.{subst}
use notary_platform.Dict.{get, put, get-put_self}
use notary_platform.Services.Replayability.{
  ReplayabilityStatus, replayable, has_cassette, has_decision, has_llm, state_of, assess,
}
use notary_platform.Sweep.Promotion.{BridgedRecord, put_vr}
use notary_platform.Services.Labels.{
  LabelRecord, LabelRequest, ProofStorage, stored_vr, stored_label, store_vr, put_label, reassessed,
  create_label, labelled,
}

abbrev pub status_of : Option LabelRecord → Option String
status_of none = none
status_of (some label) = some label.status

abbrev pub standing_of : Option BridgedRecord → Option (String × ReplayabilityStatus)
standing_of none = none
standing_of (some vr) = some (vr.assessed.current_label_id, vr.assessed.replayability)

-- the stored record carries the label and is replayable, and the label is stored as a suggestion
abbrev pub Trusted : (id vr_id : String) → ProofStorage → Type 0
Trusted id vr_id s =
    (status_of (stored_label id s) ≡ some "suggested")
    × (standing_of (stored_vr vr_id s) ≡ some (id, replayable))

with_cassette : (llm : Bool) → (state_of llm true true true).state ≡ replayable
unfolding state_of
with_cassette true = refl
with_cassette false = refl

-- a record with a cassette, a decision and a label is assessed as replayable
labelled_replayable :
    (percent : ℕ → String) (id : String) (request : LabelRequest) (vr : BridgedRecord)
    → nonblank id ≡ true
    → has_cassette vr.assessed ≡ true
    → has_decision vr.assessed ≡ true
    → (reassessed percent (labelled id request vr)).assessed.replayability ≡ replayable
unfolding reassessed assess has_cassette has_decision has_llm
labelled_replayable percent id request vr given cassette decided =
    rw (given, cassette, decided) (with_cassette _)

-- A suggested label that nobody has approved makes a record with a cassette and a decision
-- replayable: the record is stored as replayable with the label as its current one, and the label
-- is stored with the status of a suggestion.
pub create_label_suggested :
    (percent : ℕ → String) (id vr_id org_id : String) (request : LabelRequest) (s : ProofStorage)
    (vr : BridgedRecord)
    → stored_vr vr_id s ≡ some vr
    → vr.assessed.id ≡ vr_id
    → (vr.org_id == org_id) ≡ true
    → nonblank id ≡ true
    → nonblank request.suggested_by ≡ true
    → has_cassette vr.assessed ≡ true
    → has_decision vr.assessed ≡ true
    → Trusted id vr_id (create_label percent id vr_id org_id request s).1
unfolding create_label store_vr put_label put_vr stored_vr stored_label reassessed assess
create_label_suggested percent id vr_id org_id request s vr found keyed own given suggested cassette
      decided =
    let standing = labelled_replayable percent id request vr given cassette decided in
    let after = reassessed percent (labelled id request vr) in
    let stored : get vr_id (put vr.assessed.id after s.bridge.vrs) ≡ some after =
      subst (λ k. get k (put vr.assessed.id after s.bridge.vrs) ≡ some after) keyed
        (get-put_self vr.assessed.id after s.bridge.vrs) in
    let with_id : ReplayabilityStatus → Option (String × ReplayabilityStatus) = λ r. some (id, r) in
    (
      rw (found, own, get-put_self, suggested) refl,
      rw (found, own) (ap standing_of stored ∙ ap with_id standing),
    )
