-- ===== src/Sweep/Registry.antt =====
-- `EvaluatorRegistry` of src/notary_platform/sweep/registry.py.
use notary_platform.Prelude.{
  String, Bool, true, false, not, ◌==◌, Option, none, some, List, [], ◌∷◌, elem, keep, nonempty,
  if◌then◌else◌,
}
use notary_platform.Records.Contract.{EvaluatorContractRecord}
use notary_platform.Storage.{MemoryStorage, create_evaluator_contract, get_evaluator_contract}

unfoldable pub register : EvaluatorContractRecord → MemoryStorage → MemoryStorage
register contract s = create_evaluator_contract contract s

abbrev of_version : String → Option EvaluatorContractRecord → Option EvaluatorContractRecord
of_version version none = none
of_version version (some contract) = if contract.version == version then some contract else none

unfoldable pub get_version : String → String → MemoryStorage → Option EvaluatorContractRecord
get_version evaluator_id version s = of_version version (get_evaluator_contract evaluator_id s)

-- (ok, missing), as both `check_prerequisites` of the registry and of the planner return it
abbrev pub verdict_of : List String → Bool × List String
verdict_of missing = if nonempty missing then (false, missing) else (true, [])

abbrev pub missing_from : List String → Option EvaluatorContractRecord → Bool × List String
missing_from available none = (false, "evaluator_not_found" ∷ [])
missing_from available (some contract) =
    verdict_of (keep (λ p. not (elem p available)) contract.required_prerequisites)

unfoldable pub check_available : String → List String → MemoryStorage → Bool × List String
check_available evaluator_id available s =
    missing_from available (get_evaluator_contract evaluator_id s)
