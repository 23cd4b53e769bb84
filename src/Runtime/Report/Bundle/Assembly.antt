-- ===== src/Runtime/Report/Bundle/Assembly.antt =====
-- src/psrc/contract/compiler.py, src/psrc/adapters/reference.py, src/psrc/runtime/orchestrator.py,
-- src/psrc/runtime/report.py: the bundle of a rule run that was compiled and then run.
use strategy_adapter.Prelude.{
  ℕ, String, false, List, Option, length, ok, string_eq, option_eq, nat_eq, ◌≡◌, sym, ap, ◌∙◌,
  subst,
}
use strategy_adapter.Contract.Models.{
  DatasetManifest, EngineCapabilities, RunPolicy, ExecutionPlan, SandboxMode, sandbox_mode_eq,
}
use strategy_adapter.Contract.Models.Evidence.{StrategyCodeEvidence}
use strategy_adapter.Contract.Compiler.Plan.{compile_run}
use strategy_adapter.Contract.Compatibility.{apply_compatibility_plan}
use strategy_adapter.Domain.Market.{MarketEvent, Timestamp}
use strategy_adapter.Runtime.Strategy.{RuntimeStrategy}
use strategy_adapter.Runtime.Report.{RunReport}
use strategy_adapter.Runtime.Report.Bundle.{BundleDigests, stream_differs, make_bundle}
use strategy_adapter.Runtime.Orchestrator.{BacktestAdapter, run_rule}
use strategy_adapter.Runtime.Orchestrator.Outcomes.{IsCompleted, rule_completes}
use strategy_adapter.Adapters.Reference.Settlement.{ReferenceEngine}
use strategy_adapter.Adapters.Reference.Run.{run, Clock, make_report}
use strategy_adapter.Adapters.Reference.Steps.{run-eq-ok}
use strategy_adapter.Adapters.Reference.Records.{orders-IsAccounted}
use strategy_adapter.Runtime.Report.Bundle.Valid.{
  code_digest, IsCurrent, bundle_of, IsReportOf, compile_run-plan_of, bundle_valid,
}

-- the reference engine behind the engine boundary
abbrev pub reference_adapter : ReferenceEngine → Clock → BacktestAdapter
reference_adapter reference clock = record {
  run_backtest =
      λ plan strategy events mode memory. run reference plan strategy events mode clock memory;
}

reference-IsReportOf :
    (reference : ReferenceEngine) (plan : ExecutionPlan) (strategy : RuntimeStrategy)
    (effective : List MarketEvent) (mode : SandboxMode) (clock : Clock) (memory : strategy.Memory)
    (engine_report report : RunReport)
    → run reference plan strategy effective mode clock memory ≡ ok engine_report
    → IsCompleted engine_report report
    → IsReportOf plan effective report
unfolding make_report
reference-IsReportOf reference plan strategy effective mode clock memory engine_report report ran
      completed =
    let f = run-eq-ok reference plan strategy effective mode clock memory ran in
    let counted =
      orders-IsAccounted reference plan strategy effective mode clock memory engine_report ran in
    record {
      plan_kept =
          ap (λ (r : RunReport). r.execution_plan) completed.rest
          ∙ ap (λ (r : RunReport). r.execution_plan) f.reported;
      id_kept =
          ap (λ (r : RunReport). r.run_id) completed.rest
          ∙ ap (λ (r : RunReport). r.run_id) f.reported;
      no_artifacts =
          ap (λ (r : RunReport). r.artifacts) completed.rest
          ∙ ap (λ (r : RunReport). r.artifacts) f.reported;
      one_decision_each =
          ap (λ (r : RunReport). length r.decisions) completed.rest ∙ counted.decisions;
    }

-- Let a plan be compiled for a strategy, a dataset, the engine's capabilities and a policy; let its
-- transformations apply to the source events, and the reference engine return on the effective
-- ones; let the code evidence, if any, name the contract's runtime, and the dataset's stream, if
-- it is the only one, have the digest of the source events. Then the rule run returns a report, and
-- the bundle of that report with these declarations and the evidence of these events is valid.
pub rule_run_bundle_valid :
    (Float : Type 0) (digests : BundleDigests) (now : Timestamp) (run_id : String)
    (strategy : RuntimeStrategy) (dataset : DatasetManifest) (capabilities : EngineCapabilities)
    (policy : RunPolicy) (code : Option StrategyCodeEvidence) (plan : ExecutionPlan)
    (reference : ReferenceEngine) (clock : Clock) (ticks : ℕ → Timestamp) (mode : SandboxMode)
    (events effective : List MarketEvent) (memory : strategy.Memory) (engine_report : RunReport)
    → compile_run digests.models now run_id strategy.manifest dataset capabilities policy
        (code_digest digests code)
      ≡ ok plan
    → apply_compatibility_plan events plan ≡ ok effective
    → run reference plan strategy effective mode clock memory ≡ ok engine_report
    → IsCurrent code
    → stream_differs dataset.streams (digests.events_sha256 events) ≡ false
    → (report : RunReport) × (run_rule ticks plan
          (reference_adapter reference clock)
          mode
          strategy
          events
          memory
        ≡ ok report)
      × (let bundle =
            bundle_of Float digests strategy.manifest dataset capabilities policy code plan events
              effective report in
          make_bundle digests bundle ≡ ok bundle)
rule_run_bundle_valid Float digests now run_id strategy dataset capabilities policy code plan
      reference clock ticks mode events effective memory engine_report compiles transformed ran
      current stream =
    let (records, is_plan) =
      compile_run-plan_of Float digests now run_id strategy.manifest dataset capabilities policy
        code plan compiles in
    let (report, returned, completed) =
      rule_completes ticks plan (reference_adapter reference clock) mode strategy events memory
        effective engine_report transformed ran in
    let of_run =
      reference-IsReportOf reference plan strategy effective mode clock memory engine_report report
        ran completed in
    (
      report,
      returned,
      subst
          (λ (q : ExecutionPlan).
            apply_compatibility_plan events q ≡ ok effective
            → IsReportOf q effective report
            → (let bundle =
                  bundle_of Float digests strategy.manifest dataset capabilities policy code q
                    events effective report in
                make_bundle digests bundle ≡ ok bundle))
          (sym is_plan)
          (bundle_valid Float digests now run_id strategy.manifest dataset capabilities policy code
            records events effective report current stream)
          transformed of_run,
    )
