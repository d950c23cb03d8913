-- ===== src/Discovery/Context.antt =====
-- `TemporalContextResolver` of src/notary_platform/discovery/context.py. `parse_iso` is
-- `datetime.fromisoformat`, `none` where it raises; a result of `none` is the TypeError of comparing a
-- time with a zone and one without. The theorems are in the modules below.
pub mod Selection
pub mod Authority
pub mod Groups
pub mod Settled
pub mod Resolved
use notary_platform.Prelude.{
  ℕ, suc, ◌+◌, String, Bool, true, false, not, ◌&&◌, ◌||◌, ◌==◌, Option, none, some, List, [], ◌∷◌,
  ◌++◌, length, nat_eq, leb, ltb, if◌then◌else◌, ◌<>◌, nonblank, nonempty, keep, map, is_some,
}
use notary_platform.Dict.{Dict, get, put, or_else}
use notary_platform.Value.{Value, Fields, end, field, text, Draw, ◌>>=◌}
use notary_platform.Records.Binding.{ContextBinding}
use notary_platform.Records.Conflict
use notary_platform.Records.Conflict.{ContextConflict}
use notary_platform.Records.Trace
use notary_platform.Records.Trace.{ResolutionTrace}
use notary_platform.Records.Evidence.{DecisionEvidenceRecord}
use notary_platform.Storage.{
  MemoryStorage, list_context_bindings_for_scope, list_context_bindings, get_context_binding,
  get_payload, create_context_conflict, create_resolution_trace, create_decision_evidence_record,
  get_context_conflict, update_context_conflict,
}

pub record Instant : Type 0 where
  pub has_zone : Bool
  pub at : ℕ

pub record Times : Type 0 where
  pub parse_iso : String → Option Instant
  -- str.startswith
  pub starts_with : (text prefix : String) → Bool

-- `datetime.min` where the text is no time
abbrev pub parse_time : Times → String → Instant
parse_time times t = or_else (times.parse_iso t) (record { has_zone = false; at = 0 })

abbrev pub same_bool : Bool → Bool → Bool
same_bool true b = b
same_bool false b = not b

-- `a < b` of two datetimes
abbrev pub earlier : Instant → Instant → Option Bool
earlier a b = if same_bool a.has_zone b.has_zone then some (ltb a.at b.at) else none

-- `bound and dt < parse(bound)`
unfoldable pub is_before : Times → Instant → String → Option Bool
is_before times dt bound =
    if nonblank bound then earlier dt (parse_time times bound) else some false

abbrev pub negated : Option Bool → Option Bool
negated none = none
negated (some b) = some (not b)

-- `bound and dt >= parse(bound)`
unfoldable pub is_past : Times → Instant → String → Option Bool
is_past times dt bound =
    if nonblank bound then negated (earlier dt (parse_time times bound)) else some false

abbrev pub superseder_found :
    Times → Instant → Option ContextBinding → Option (Option ContextBinding)
superseder_found times dt none = some none
superseder_found times dt (some b) = do
  past ← is_past times dt b.effective_from
  some (if past then some b else none)

-- the binding that supersedes this one at the time of the decision
unfoldable pub superseder_of :
    Times → Instant → MemoryStorage → ContextBinding → Option (Option ContextBinding)
unfolding is_past
superseder_of times dt s cb =
    if nonblank cb.superseded_by
    then superseder_found times dt (get_context_binding cb.superseded_by s)
    else some none

unfoldable pub artifact_available : Times → MemoryStorage → String → Bool
artifact_available times s artifact_ref =
    nonblank artifact_ref
    && (not (times.starts_with artifact_ref "dep://") || is_some (get_payload artifact_ref s))

-- where a candidate goes
pub data Verdict : Type 0 where
  included : Verdict
  excluded : (reason : String) → Verdict
  superseded : ContextBinding → Verdict
  redacted : Verdict
  unavailable : Verdict

abbrev pub judge_content : Times → MemoryStorage → ContextBinding → Option ContextBinding → Verdict
judge_content times s cb (some superseder) = superseded superseder
judge_content times s cb none =
    if cb.binding_type == "redacted"
    then redacted
    else if nonblank cb.artifact_ref && not (artifact_available times s cb.artifact_ref)
    then unavailable
    else included

abbrev pub judge_late : Times → Instant → MemoryStorage → ContextBinding → Bool → Option Verdict
judge_late times dt s cb true =
    some (excluded ("at or after effective_until (" <> cb.effective_until <> ")"))
judge_late times dt s cb false = do
  superseder ← superseder_of times dt s cb
  some (judge_content times s cb superseder)

abbrev pub judge_early : Times → Instant → MemoryStorage → ContextBinding → Bool → Option Verdict
judge_early times dt s cb true =
    some (excluded ("before effective_from (" <> cb.effective_from <> ")"))
judge_early times dt s cb false = do
  late ← is_past times dt cb.effective_until
  judge_late times dt s cb late

-- one round of the loop over the candidates
unfoldable pub judge : Times → Instant → MemoryStorage → ContextBinding → Option Verdict
unfolding is_before is_past superseder_of
judge times dt s cb = do
  early ← is_before times dt cb.effective_from
  judge_early times dt s cb early

pub record Selected : Type 0 where
  pub included_bindings : List ContextBinding
  pub excluded_bindings : List ContextBinding
  pub superseded_bindings : List ContextBinding
  pub missing : List String
  pub stale : List String
  pub redacted_artifacts : List String
  pub reasons : Fields

abbrev pub nothing_selected : Selected
nothing_selected = record {
  included_bindings = [];
  excluded_bindings = [];
  superseded_bindings = [];
  missing = [];
  stale = [];
  redacted_artifacts = [];
  reasons = end;
}

-- reasons[k] = t
unfoldable pub put_reason : String → String → Fields → Fields
put_reason k t end = field k (text t) end
put_reason k t (field j v rest) =
    let others = put_reason k t rest in if j == k then field j (text t) rest else field j v others

unfoldable pub place : ContextBinding → Verdict → Selected → Selected
unfolding put_reason
place cb included acc = record acc { included_bindings = acc.included_bindings ++ (cb ∷ []) }
place cb (excluded reason) acc = record acc {
  excluded_bindings = acc.excluded_bindings ++ (cb ∷ []);
  reasons = put_reason cb.id reason acc.reasons;
}
place cb (superseded superseder) acc = record acc {
  included_bindings = acc.included_bindings ++ (superseder ∷ []);
  superseded_bindings = acc.superseded_bindings ++ (cb ∷ []);
  reasons = put_reason cb.id ("superseded by " <> cb.superseded_by) acc.reasons;
}
place cb redacted acc = record acc {
  redacted_artifacts = acc.redacted_artifacts ++ (cb.artifact_ref ∷ []);
  excluded_bindings = acc.excluded_bindings ++ (cb ∷ []);
  reasons = put_reason cb.id "artifact is redacted" acc.reasons;
}
place cb unavailable acc = record acc {
  missing = acc.missing ++ (cb.artifact_ref ∷ []);
  stale = acc.stale ++ (cb.artifact_ref ∷ []);
  excluded_bindings = acc.excluded_bindings ++ (cb ∷ []);
  reasons = put_reason cb.id ("artifact not available (" <> cb.artifact_ref <> ")") acc.reasons;
}

unfoldable pub select :
    Times → Instant → MemoryStorage → List ContextBinding → Selected → Option Selected
unfolding judge place
select times dt s [] acc = some acc
select times dt s (cb ∷ rest) acc = do
  verdict ← judge times dt s cb
  select times dt s rest (place cb verdict acc)

unfoldable pub authority_rank : ContextBinding → ℕ
authority_rank cb =
    if cb.authority == "customer_confirmed"
    then 4
    else if cb.authority == "provider_declared"
    then 3
    else if cb.authority == "dep_relationship"
    then 2
    else if cb.authority == "inferred"
    then 1
    else 0

abbrev pub group_key : ContextBinding → String
group_key cb = cb.subject_scope <> ":" <> cb.binding_type

-- grouped.setdefault(key, []).append(cb)
unfoldable pub group_by_key :
    List ContextBinding → Dict (List ContextBinding) → Dict (List ContextBinding)
unfolding get put
group_by_key [] groups = groups
group_by_key (cb ∷ rest) groups =
    group_by_key rest
      (put (group_key cb) (or_else (get (group_key cb) groups) [] ++ (cb ∷ [])) groups)

-- by falling rank; equals keep their order
unfoldable pub insert_by_rank : ContextBinding → List ContextBinding → List ContextBinding
unfolding authority_rank
insert_by_rank cb [] = cb ∷ []
insert_by_rank cb (other ∷ rest) =
    let later = insert_by_rank cb rest in
    if leb (authority_rank other) (authority_rank cb) then cb ∷ other ∷ rest else other ∷ later

unfoldable pub sort_by_rank : List ContextBinding → List ContextBinding
unfolding insert_by_rank
sort_by_rank [] = []
sort_by_rank (cb ∷ rest) = insert_by_rank cb (sort_by_rank rest)

unfoldable pub ties_of : ContextBinding → List ContextBinding → List ContextBinding
unfolding keep authority_rank
ties_of top group = keep (λ g. nat_eq (authority_rank g) (authority_rank top)) group

-- what the list `conflicted` of the source may hold
pub data Conflicted : Type 0 where
  of_binding : ContextBinding → Conflicted
  of_conflict : ContextConflict → Conflicted

-- the loop over the groups: what is included at last, what is in conflict, and what is stored
pub record Ranked : Type 0 where
  pub final_included : List ContextBinding
  pub conflicted : List Conflicted
  pub reasons : Fields
  pub storage : MemoryStorage

unfoldable pub conflict_between :
    Draw → (org_id der_id key : String) → (a b : ContextBinding) → ContextConflict
unfolding Conflict.post_init
conflict_between draw org_id der_id key a b = Conflict.post_init draw (record Conflict.blank {
  org_id = org_id;
  der_id = der_id;
  field_or_binding = key;
  binding_a_id = a.id;
  binding_b_id = b.id;
  authority_a = a.authority;
  authority_b = b.authority;
})

-- `ties` begins with `top`; a second tie is a conflict unless a customer has confirmed it
abbrev pub rank_ties :
    Draw → (org_id der_id key : String) → ContextBinding → List ContextBinding → Ranked → Ranked
rank_ties draw org_id der_id key top (first ∷ second ∷ more) acc =
    if not (top.authority == "customer_confirmed")
    then record acc {
      conflicted = acc.conflicted ++ (of_binding top ∷ []);
      reasons =
          put_reason top.id ("equal-authority conflict with " <> second.id <> " (" <> key <> ")")
            acc.reasons;
      storage =
          create_context_conflict (conflict_between draw org_id der_id key first second)
            acc.storage;
    }
    else record acc { final_included = acc.final_included ++ (top ∷ []) }
rank_ties draw org_id der_id key top _ acc = record acc {
  final_included = acc.final_included ++ (top ∷ []);
}

abbrev pub rank_sorted : Draw → (org_id der_id key : String) → List ContextBinding → Ranked → Ranked
rank_sorted draw org_id der_id key [] acc = acc
rank_sorted draw org_id der_id key (top ∷ rest) acc =
    rank_ties draw org_id der_id key top (ties_of top (top ∷ rest)) acc

unfoldable pub rank_groups :
    (ℕ → Draw) → ℕ → (org_id der_id : String) → Dict (List ContextBinding) → Ranked → Ranked
unfolding sort_by_rank ties_of put_reason
rank_groups draw k org_id der_id [] acc = acc
rank_groups draw k org_id der_id ((key, group) ∷ groups) acc =
    rank_groups draw (suc k) org_id der_id groups
      (rank_sorted (draw k) org_id der_id key (sort_by_rank group) acc)

-- `isinstance(cc, ContextConflict)`
abbrev pub is_context_conflict : Conflicted → Bool
is_context_conflict (of_binding cb) = false
is_context_conflict (of_conflict cc) = true

abbrev pub conflicted_id : Conflicted → String
conflicted_id (of_binding cb) = cb.id
conflicted_id (of_conflict cc) = cc.id

unfoldable pub trace_of :
    Draw → DecisionEvidenceRecord → String → Selected → Ranked → ResolutionTrace
unfolding Trace.post_init keep
trace_of draw der org_id selected ranked = Trace.post_init draw (record Trace.blank {
  der_id = der.id;
  org_id = org_id;
  included_bindings = map (λ b. b.id) ranked.final_included;
  excluded_bindings = map (λ b. b.id) selected.excluded_bindings;
  superseded_bindings = map (λ b. b.id) selected.superseded_bindings;
  missing_artifacts = selected.missing;
  stale_artifacts = selected.stale;
  redacted_artifacts = selected.redacted_artifacts;
  conflicted_bindings = map conflicted_id (keep is_context_conflict ranked.conflicted);
  reasons = ranked.reasons;
})

unfoldable pub candidates_for :
    (org_id scope selector : String) → MemoryStorage → List ContextBinding
unfolding list_context_bindings_for_scope list_context_bindings keep
candidates_for org_id scope selector s =
    if nonempty (list_context_bindings_for_scope org_id scope selector s)
    then list_context_bindings_for_scope org_id scope selector s
    else keep (λ cb. cb.subject_scope == scope || cb.subject_scope == "")
        (list_context_bindings org_id s)

abbrev pub given_or : Option String → String → String
given_or none default = default
given_or (some t) default = if nonblank t then t else default

-- `_update_der_bindings`
unfoldable pub with_trace : ResolutionTrace → DecisionEvidenceRecord → DecisionEvidenceRecord
with_trace trace der = record der {
  resolution_trace_id = trace.id;
  context_binding_ids = trace.included_bindings;
}

-- `draw 0` is the trace's, `draw (k + 1)` the one of the k-th group's conflict
unfoldable pub finish :
    (ℕ → Draw)
    → DecisionEvidenceRecord
    → String
    → MemoryStorage
    → Selected
    → ResolutionTrace × MemoryStorage
unfolding rank_groups trace_of with_trace group_by_key
finish draw der org_id s selected =
    let ranked =
      rank_groups draw 1 org_id der.id (group_by_key selected.included_bindings []) (record {
        final_included = [];
        conflicted = [];
        reasons = selected.reasons;
        storage = s;
      }) in
    let trace = trace_of (draw 0) der org_id selected ranked in
    (
      trace,
      create_decision_evidence_record (with_trace trace der)
          (create_resolution_trace trace ranked.storage),
    )

unfoldable pub resolve :
    Times
    → (ℕ → Draw)
    → DecisionEvidenceRecord
    → String
    → (decision_time subject_scope subject_selector : Option String) → MemoryStorage
    → Option (ResolutionTrace × MemoryStorage)
unfolding select finish candidates_for
resolve times draw der org_id decision_time subject_scope subject_selector s = do
  selected ←
      select times (parse_time times (given_or decision_time der.created_at)) s
        (candidates_for org_id (given_or subject_scope der.decision_identity)
          (given_or subject_selector "") s)
        nothing_selected
  some (finish draw der org_id s selected)

abbrev pub resolve_conflict_found :
    (resolution resolved_by now org_id : String)
    → MemoryStorage
    → Option ContextConflict
    → Option ContextConflict × MemoryStorage
resolve_conflict_found resolution resolved_by now org_id s none = (none, s)
resolve_conflict_found resolution resolved_by now org_id s (some cc) =
    if not (cc.org_id == org_id)
    then (none, s)
    else let cc' = record cc {
      resolution = resolution;
      resolved_by = resolved_by;
      resolved_at = now;
    } in
      (some cc', update_context_conflict cc' s)

unfoldable pub resolve_conflict :
    (conflict_id resolution resolved_by now org_id : String)
    → MemoryStorage
    → Option ContextConflict × MemoryStorage
resolve_conflict conflict_id resolution resolved_by now org_id s =
    resolve_conflict_found resolution resolved_by now org_id s (get_context_conflict conflict_id s)
