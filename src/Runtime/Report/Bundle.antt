-- ===== src/Runtime/Report/Bundle.antt =====
-- src/psrc/runtime/report.py: a run with all that it was made from, and its validation. The digests
-- are parameters. Of the mismatches only counts whether there is one; their texts are left out.
pub mod Valid
pub mod Assembly
use strategy_adapter.Prelude.{
  ℕ, String, Bool, true, false, not, ◌&&◌, ◌||◌, List, [], ◌∷◌, ◌++◌, Option, none, some, any,
  length, nat_beq, nonempty, ok, raised, ◌>>=◌, ◌>>◌, raise_if, ◌==◌, ◌!=◌, string_eq, option_eq,
  nat_eq, if◌then◌else◌,
}
use strategy_adapter.Contract.Errors.{Call, python, value_error}
use strategy_adapter.Contract.Models.{
  StrategyManifest, DatasetManifest, DatasetStream, EngineCapabilities, RunPolicy, ExecutionPlan,
  CompatibilityRecord,
}
use strategy_adapter.Contract.Models.Evidence.{StrategyCodeEvidence}
use strategy_adapter.Contract.Compiler.Plan.{Digests}
use strategy_adapter.Contract.Compatibility.{apply_compatibility_plan}
use strategy_adapter.Domain.Market.{MarketEvent}
use strategy_adapter.Domain.Equality.{events_beq}
use strategy_adapter.Runtime.Artifacts.{ArtifactManifest}
use strategy_adapter.Runtime.Training.{TrainingRequest}
use strategy_adapter.Runtime.Report.{RunReport}

pub record RunInputEvidence : Type 0 where
  pub dataset_id : String
  pub source_events : List MarketEvent
  pub effective_events : List MarketEvent
  pub source_data_sha256 : String
  pub effective_data_sha256 : String
  pub transformation_ids : List String

pub record RunBundle (Float : Type 0) : Type 0 where
  pub report : RunReport
  pub strategy_manifest : StrategyManifest
  pub dataset_manifest : DatasetManifest
  pub engine_capabilities : EngineCapabilities
  pub run_policy : RunPolicy
  pub input_evidence : RunInputEvidence
  pub strategy_code_evidence : Option StrategyCodeEvidence
  pub training_request : Option (TrainingRequest Float)

-- `sha256_model`, on each of the models whose digest is taken
pub record BundleDigests : Type 0 where
  pub models : Digests
  pub events_sha256 : List MarketEvent → String
  pub code_sha256 : StrategyCodeEvidence → String

-- `validate_hashes`
unfoldable pub validate_hashes : BundleDigests → RunInputEvidence → Call (Unit {0})
validate_hashes digests evidence =
    raise_if (digests.events_sha256 evidence.source_events != evidence.source_data_sha256)
      (python value_error)
    >> raise_if (digests.events_sha256 evidence.effective_events != evidence.effective_data_sha256)
        (python value_error)

-- `planned_transformations`
unfoldable pub planned_transformations : List CompatibilityRecord → List String
planned_transformations [] = []
planned_transformations (r ∷ records) =
    let rest = planned_transformations records in
    elim r.transformation_id [ none ↦ rest | some t ↦ t ∷ rest ]

abbrev pub same_ids : List String → List String → Bool
same_ids [] [] = true
same_ids (x ∷ xs) (y ∷ ys) = x == y && same_ids xs ys
same_ids _ _ = false

-- the stream's digest differs, when there is just one
abbrev pub stream_differs : List DatasetStream → String → Bool
stream_differs (s ∷ []) digest = s.data_sha256 != digest
stream_differs _ digest = false

module _ (digests : BundleDigests) where
  unfoldable pub code_differs : ExecutionPlan → Option StrategyCodeEvidence → Bool
  code_differs plan none = plan.strategy_code_evidence_sha256 != none
  code_differs plan (some evidence) =
      plan.strategy_code_evidence_sha256 != some (digests.code_sha256 evidence)
      || evidence.runtime_version != plan.contract_version

  module _ {Float : Type 0} where
    -- the first table of pairs
    unfoldable pub plan_differs : RunBundle Float → Bool
    plan_differs bundle =
        let plan = bundle.report.execution_plan in
        plan.run_id != bundle.report.run_id
        || plan.strategy_id != bundle.strategy_manifest.strategy_id
        || plan.dataset_id != bundle.dataset_manifest.dataset_id
        || plan.engine_id != bundle.engine_capabilities.engine_id
        || plan.strategy_manifest_sha256 != digests.models.strategy_sha256 bundle.strategy_manifest
        || plan.dataset_manifest_sha256 != digests.models.dataset_sha256 bundle.dataset_manifest
        || plan.engine_capabilities_sha256
          != digests.models.engine_sha256 bundle.engine_capabilities
        || plan.run_policy_sha256 != digests.models.policy_sha256 bundle.run_policy

    -- the artifacts against the training request
    unfoldable pub training_differs : List ArtifactManifest → Option (TrainingRequest Float) → Bool
    training_differs artifacts none = nonempty artifacts
    training_differs artifacts (some request) =
        any (λ a. a.training_dataset_id != some request.dataset_id || a.seed != some request.seed)
          artifacts

    -- the input evidence against the declarations and the plan
    unfoldable pub evidence_differs : RunBundle Float → Bool
    evidence_differs bundle =
        let evidence = bundle.input_evidence in
        evidence.dataset_id != bundle.dataset_manifest.dataset_id
        || stream_differs bundle.dataset_manifest.streams evidence.source_data_sha256
        || not (
            same_ids evidence.transformation_ids
              (planned_transformations bundle.report.execution_plan.compatibility))
        || not (nat_beq (length bundle.report.decisions) (length evidence.effective_events))

    -- whether `mismatches` has an entry, the effective events aside
    unfoldable pub context_differs : RunBundle Float → Bool
    context_differs bundle =
        plan_differs bundle
        || training_differs bundle.report.artifacts bundle.training_request
        || code_differs bundle.report.execution_plan bundle.strategy_code_evidence
        || evidence_differs bundle

    -- `validate_context_integrity`
    unfoldable pub validate_context_integrity : RunBundle Float → Call (Unit {0})
    validate_context_integrity bundle =
        apply_compatibility_plan bundle.input_evidence.source_events bundle.report.execution_plan
        >>= λ expected.
            raise_if
              (context_differs bundle
                || not (events_beq bundle.input_evidence.effective_events expected))
              (python value_error)

    -- the construction of a bundle, whose evidence is validated first
    unfoldable pub make_bundle : RunBundle Float → Call (RunBundle Float)
    make_bundle bundle =
        validate_hashes digests bundle.input_evidence
        >> validate_context_integrity bundle
        >> ok bundle
