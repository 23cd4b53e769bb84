-- ===== src/Runtime/Report/Bundle/Valid.antt =====
-- src/psrc/contract/compiler.py, src/psrc/runtime/report.py: the bundle of a plan that was compiled
-- and of a report that belongs to it.
use strategy_adapter.Prelude.{
  ◌&&◌, String, true, false, not, List, [], ◌∷◌, Option, none, some, length, ok, raise_if,
  >>=-eq-ok, ok-injective, string_eq, option_eq, nat_eq, eq_self, contains, ◌≡◌, refl, sym,
}
use strategy_adapter.Contract.Models.{
  StrategyManifest, DatasetManifest, EngineCapabilities, RunPolicy, ExecutionPlan, sandbox_mode_eq,
  CompatibilityRecord,
}
use strategy_adapter.Contract.Models.Evidence.{StrategyCodeEvidence}
use strategy_adapter.Contract.Compiler.Requirement.{compile_requirements}
use strategy_adapter.Contract.Compiler.Plan.{
  compile_run, plan_of, context_of, check_versions, check_capabilities,
}
use strategy_adapter.Contract.Models.Identifiers.{is_identifier, is_code_digest}
use strategy_adapter.Contract.Compatibility.{apply_compatibility_plan}
use strategy_adapter.Domain.Market.{MarketEvent, Timestamp}
use strategy_adapter.Domain.Equality.{events_beq_self}
use strategy_adapter.Runtime.Report.{RunReport}
use strategy_adapter.Runtime.Report.Bundle.{
  RunInputEvidence, RunBundle, BundleDigests, validate_hashes, planned_transformations, same_ids,
  stream_differs, code_differs, plan_differs, training_differs, evidence_differs, context_differs,
  validate_context_integrity, make_bundle,
}

same_ids_self : (xs : List String) → same_ids xs xs ≡ true
same_ids_self [] = refl
same_ids_self (x ∷ xs) = rw (eq_self x) (same_ids_self xs)

-- the digest that a plan gets of the code evidence, if there is any
abbrev pub code_digest : BundleDigests → Option StrategyCodeEvidence → Option String
code_digest digests none = none
code_digest digests (some evidence) = some (digests.code_sha256 evidence)

-- The evidence's runtime is the contract's.
abbrev pub IsCurrent : Option StrategyCodeEvidence → Type 0
IsCurrent none = Unit
IsCurrent (some evidence) = evidence.runtime_version ≡ "1.1.0"

-- the evidence that is recorded of a run over these events
abbrev pub evidence_of :
    BundleDigests
    → DatasetManifest
    → List MarketEvent
    → List MarketEvent
    → ExecutionPlan
    → RunInputEvidence
evidence_of digests dataset events effective plan = record {
  dataset_id = dataset.dataset_id;
  source_events = events;
  effective_events = effective;
  source_data_sha256 = digests.events_sha256 events;
  effective_data_sha256 = digests.events_sha256 effective;
  transformation_ids = planned_transformations plan.compatibility;
}

-- the bundle of a report
abbrev pub bundle_of :
    (Float : Type 0)
    → BundleDigests
    → StrategyManifest
    → DatasetManifest
    → EngineCapabilities
    → RunPolicy
    → Option StrategyCodeEvidence
    → ExecutionPlan
    → List MarketEvent
    → List MarketEvent
    → RunReport
    → RunBundle Float
bundle_of Float digests manifest dataset capabilities policy code plan events effective report =
    record {
      report = report;
      strategy_manifest = manifest;
      dataset_manifest = dataset;
      engine_capabilities = capabilities;
      run_policy = policy;
      input_evidence = evidence_of digests dataset events effective plan;
      strategy_code_evidence = code;
      training_request = none;
    }

-- what the bundle needs of the report
pub record IsReportOf (plan : ExecutionPlan) (effective : List MarketEvent) (report : RunReport)
    : Type 0 where
  pub plan_kept : report.execution_plan ≡ plan
  pub id_kept : report.run_id ≡ plan.run_id
  pub no_artifacts : report.artifacts ≡ []
  pub one_decision_each : length report.decisions ≡ length effective

module _ (Float : Type 0) (digests : BundleDigests) (now : Timestamp) (run_id : String)
    (manifest : StrategyManifest) (dataset : DatasetManifest) (capabilities : EngineCapabilities)
    (policy : RunPolicy) (code : Option StrategyCodeEvidence) where
  abbrev compiled : List CompatibilityRecord → ExecutionPlan
  compiled records =
      plan_of digests.models now run_id manifest dataset capabilities policy
        (code_digest digests code) records

  pub compile_run-plan_of :
      (plan : ExecutionPlan)
      → compile_run digests.models now run_id manifest dataset capabilities policy
          (code_digest digests code)
        ≡ ok plan
      → (records : List CompatibilityRecord) × (plan ≡ compiled records)
  unfolding compile_run
  compile_run-plan_of plan e =
      let c = context_of run_id manifest capabilities in
      let (_, _, e1) = >>=-eq-ok (check_versions c manifest dataset capabilities) _ e in
      let (_, _, e2) = >>=-eq-ok (check_capabilities c manifest capabilities policy) _ e1 in
      let (records, _, e3) =
        >>=-eq-ok (compile_requirements c policy dataset capabilities manifest.data_requirements) _
          e2 in
      let (_, _, e4) =
        >>=-eq-ok (raise_if (not (contains capabilities.sandbox_modes policy.required_sandbox)) _) _
          e3 in
      let (_, _, e5) =
        >>=-eq-ok
          (raise_if (not (is_identifier run_id && is_code_digest (code_digest digests code))) _) _
          e4 in
      (records, sym (ok-injective e5))

  code_same :
      (evidence : Option StrategyCodeEvidence) (plan : ExecutionPlan)
      → IsCurrent evidence
      → plan.strategy_code_evidence_sha256 ≡ code_digest digests evidence
      → plan.contract_version ≡ "1.1.0"
      → code_differs digests plan evidence ≡ false
  unfolding code_differs
  code_same none plan current same version = rw same refl
  code_same (some evidence) plan current same version =
      rw (same, eq_self (digests.code_sha256 evidence), current, version) refl

  pub bundle_valid :
      (records : List CompatibilityRecord) (events effective : List MarketEvent)
      (report : RunReport)
      → IsCurrent code
      → stream_differs dataset.streams (digests.events_sha256 events) ≡ false
      → apply_compatibility_plan events (compiled records) ≡ ok effective
      → IsReportOf (compiled records) effective report
      → make_bundle digests (
          bundle_of Float digests manifest dataset capabilities policy code
            (compiled records)
            events
            effective
            report)
        ≡ ok (
            bundle_of Float digests manifest dataset capabilities policy code
              (compiled records)
              events
              effective
              report)
  unfolding make_bundle validate_hashes validate_context_integrity context_differs plan_differs
      training_differs evidence_differs
  bundle_valid records events effective report current stream transformed of_run =
      rw
        (
          eq_self (digests.events_sha256 events),
          eq_self (digests.events_sha256 effective),
          of_run.plan_kept,
          transformed,
          of_run.id_kept,
          of_run.no_artifacts,
          of_run.one_decision_each,
          eq_self run_id,
          eq_self manifest.strategy_id,
          eq_self dataset.dataset_id,
          eq_self capabilities.engine_id,
          eq_self (digests.models.strategy_sha256 manifest),
          eq_self (digests.models.dataset_sha256 dataset),
          eq_self (digests.models.engine_sha256 capabilities),
          eq_self (digests.models.policy_sha256 policy),
          code_same code (compiled records) current refl refl,
          stream,
          same_ids_self (planned_transformations records),
          eq_self (length effective),
          events_beq_self effective,
        )
        refl
