-- ===== src/Tests/Contracts.antt =====
-- The theorems on the contract at concrete declarations.
use strategy_adapter.Prelude.{◌≡◌, ◌↔◌, refl, none, some, List, [], ◌∷◌, map, ok, raised, All}
use strategy_adapter.Contract.Errors.{Call, python, value_error}
use strategy_adapter.Contract.Compiler.Refusals.{IsRefusal, compile_run-IsRefusal}
use strategy_adapter.Contract.Models.{ExecutionPlan, StrategyManifest}
use strategy_adapter.Contract.Compatibility.{
  apply_compatibility_plan, apply_records, apply_record, mapping_of, map_symbol, map_or_fail,
}
use strategy_adapter.Contract.Compatibility.Untouched.{anonymous, only_names_change}
use strategy_adapter.Contract.Compiler.Plan.{compile_run, check_versions, check_capabilities}
use strategy_adapter.Contract.Compiler.Requirement.{
  mapped_record, compile_requirements, compile_requirement, compile_stream, compile_symbols,
  compile_timeframe,
}
use strategy_adapter.Contract.Compiler.Symbols.{symbol_mapping, usable_entries, checked_mapping}
use strategy_adapter.Contract.Compiler.{
  major, before_dot, duration_seconds, period_seconds, split_last, can_resample,
}
use strategy_adapter.Domain.Market.{MarketEvent}
use strategy_adapter.Contract.Models.Identifiers.{is_identifier, is_code_digest}
use strategy_adapter.Prelude.Int.{int_of_codes, pos}
use strategy_adapter.Contract.Compiler.Specification.{IsCompatible}
use strategy_adapter.Contract.Compiler.Compatible.{IsNamed, compile_run_iff}
use strategy_adapter.Contract.Compiler.Permitted.{IsPermitted, plan_transforms_only_as_allowed}
use strategy_adapter.Contract.Compiler.Mapping.{IsReversible, symbol_mapping-IsReversible}
use strategy_adapter.Tests.Data.{
  manifest, dataset, capabilities, policy, digests, plan, events, stream,
}

-- the plan of the declarations
abbrev compiled : Call ExecutionPlan
compiled = compile_run digests 0 "run" manifest dataset capabilities policy none

compiles : (p : ExecutionPlan) × (compiled ≡ ok p)
unfolding compile_run check_versions check_capabilities compile_requirements compile_requirement
    compile_stream compile_symbols compile_timeframe symbol_mapping usable_entries checked_mapping
    major before_dot can_resample duration_seconds period_seconds split_last int_of_codes
    is_identifier is_code_digest
compiles = (_, refl)

compile_run_iff_example :
    ((p : ExecutionPlan) × (compiled ≡ ok p))
    ↔ (IsCompatible policy dataset capabilities manifest × IsNamed "run" none)
compile_run_iff_example = compile_run_iff digests 0 "run" manifest dataset capabilities policy none

plan_transforms_only_as_allowed_example : All (IsPermitted policy) compiles.0.compatibility
plan_transforms_only_as_allowed_example =
    plan_transforms_only_as_allowed digests 0 "run" manifest dataset capabilities policy none
      compiles.0 compiles.1

mapped : symbol_mapping stream ("ABC" ∷ []) policy ≡ some (("XYZ", "ABC") ∷ [])
unfolding symbol_mapping usable_entries checked_mapping
mapped = refl

symbol_mapping-IsReversible_example : IsReversible ("XYZ" ∷ []) ("ABC" ∷ []) (("XYZ", "ABC") ∷ [])
symbol_mapping-IsReversible_example =
    symbol_mapping-IsReversible stream ("ABC" ∷ []) policy (("XYZ", "ABC") ∷ []) mapped

-- the plan with a symbol map in it, and no resampling
abbrev renaming : ExecutionPlan
renaming = record plan { compatibility = mapped_record stream (("ABC", "XYZ") ∷ []) ∷ [] }

renamed : (out : List MarketEvent) × (apply_compatibility_plan events renaming ≡ ok out)
unfolding apply_compatibility_plan apply_records apply_record mapping_of map_symbol map_or_fail
renamed = (_, refl)

only_names_change_example : map anonymous renamed.0 ≡ map anonymous events
only_names_change_example = only_names_change renaming events renamed.0 (refl, tt) renamed.1

-- a version that is not a number
abbrev unversioned : StrategyManifest
unversioned = record manifest { contract_version = "v1" }

unversioned_raises :
    compile_run digests 0 "run" unversioned dataset capabilities policy none
    ≡ raised (python value_error)
unfolding compile_run check_versions major before_dot int_of_codes is_identifier is_code_digest
unversioned_raises = refl

compile_run-IsRefusal_example :
    IsRefusal unversioned dataset capabilities "run" none (python value_error)
compile_run-IsRefusal_example =
    compile_run-IsRefusal unversioned dataset capabilities "run" none digests 0 policy
      (python value_error) unversioned_raises

-- `int(" +1 ")`, and 11 in Arabic digits
int_spaced : int_of_codes (32 ∷ b'+' ∷ b'1' ∷ 32 ∷ []) ≡ some (pos 1)
unfolding int_of_codes
int_spaced = refl

int_arabic : int_of_codes (1633 ∷ 160 ∷ []) ≡ some (pos 1)
unfolding int_of_codes
int_arabic = refl
