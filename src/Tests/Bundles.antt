-- ===== src/Tests/Bundles.antt =====
-- The theorem on the bundle of a rule run, at a strategy whose data is there as it wants them.
use strategy_adapter.Prelude.{ℕ, ◌+◌, ◌≡◌, refl, none, [], ◌∷◌, ok}
use strategy_adapter.Contract.Models.{ExecutionPlan, DatasetManifest, development}
use strategy_adapter.Contract.Compatibility.{apply_compatibility_plan, apply_records, apply_record}
use strategy_adapter.Contract.Compiler.Plan.{compile_run, check_versions, check_capabilities}
use strategy_adapter.Contract.Compiler.Requirement.{
  compile_requirements, compile_requirement, compile_stream, compile_symbols, compile_timeframe,
}
use strategy_adapter.Contract.Compiler.Symbols.{symbol_mapping, usable_entries, checked_mapping}
use strategy_adapter.Contract.Compiler.{
  major, before_dot, duration_seconds, period_seconds, split_last, can_resample,
}
use strategy_adapter.Contract.Models.Identifiers.{is_identifier, is_code_digest}
use strategy_adapter.Prelude.Int.{int_of_codes}
use strategy_adapter.Runtime.Orchestrator.{run_rule}
use strategy_adapter.Runtime.Report.{RunReport}
use strategy_adapter.Runtime.Report.Bundle.{BundleDigests, make_bundle}
use strategy_adapter.Runtime.Report.Bundle.Valid.{bundle_of}
use strategy_adapter.Runtime.Report.Bundle.Assembly.{reference_adapter, rule_run_bundle_valid}
use strategy_adapter.Adapters.Reference.Run.{run}
use strategy_adapter.Tests.Data.{
  manifest, dataset, stream, capabilities, policy, digests, events, reference, clock, crossing,
  minutes,
}
use strategy_adapter.Tests.Engine.{engine_steps}

abbrev five_minutes : DatasetManifest
five_minutes = record dataset {
  streams =
      record stream { symbols = "ABC" ∷ []; timeframe = minutes "PT5M"; data_sha256 = "events" }
      ∷ [];
}

abbrev bundle_digests : BundleDigests
bundle_digests = record {
  models = digests;
  events_sha256 = λ events. "events";
  code_sha256 = λ evidence. "code";
}

compiles :
    (plan : ExecutionPlan) × (compile_run digests 0 "run" manifest five_minutes capabilities policy
        none
      ≡ ok plan)
unfolding compile_run check_versions check_capabilities compile_requirements compile_requirement
    compile_stream compile_symbols compile_timeframe symbol_mapping usable_entries checked_mapping
    major before_dot can_resample duration_seconds period_seconds split_last int_of_codes
    is_identifier is_code_digest
compiles = (_, refl)

untouched : apply_compatibility_plan events compiles.0 ≡ ok events
unfolding compiles apply_compatibility_plan apply_records apply_record
untouched = refl

runs :
    (report : RunReport) × (run reference compiles.0 crossing events development clock 0
      ≡ ok report)
unfolding compiles engine_steps
runs = (_, refl)

abbrev ticks : ℕ → ℕ
ticks n = 20 + n

rule_run_bundle_valid_example :
    (report : RunReport) × (run_rule ticks compiles.0
        (reference_adapter reference clock)
        development
        crossing
        events
        0
      ≡ ok report)
    × (let bundle =
          bundle_of ℕ bundle_digests manifest five_minutes capabilities policy none compiles.0
            events events report in
        make_bundle bundle_digests bundle ≡ ok bundle)
rule_run_bundle_valid_example =
    rule_run_bundle_valid ℕ bundle_digests 0 "run" crossing five_minutes capabilities policy none
      compiles.0 reference clock ticks development events events 0 runs.0 compiles.1 untouched
      runs.1 tt refl
