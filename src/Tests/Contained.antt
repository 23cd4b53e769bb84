-- ===== src/Tests/Contained.antt =====
-- The theorem on strict strategies, at one without data that asks for the strict container.
use strategy_adapter.Prelude.{true, ◌≡◌, refl, none, [], ok}
use strategy_adapter.Contract.Models.{StrategyManifest, RunPolicy, ExecutionPlan, SandboxMode}
use strategy_adapter.Contract.Compiler.Plan.{compile_run, check_versions, check_capabilities}
use strategy_adapter.Contract.Compiler.Requirement.{compile_requirements}
use strategy_adapter.Contract.Compiler.{major, before_dot}
use strategy_adapter.Contract.Models.Identifiers.{is_identifier, is_code_digest}
use strategy_adapter.Prelude.Int.{int_of_codes}
use strategy_adapter.Adapters.Reference.Capabilities.{capabilities}
use strategy_adapter.Adapters.Reference.Capabilities.Contained.{strict_strategy_contained}
use strategy_adapter.Tests.Data.{manifest, dataset, policy, digests}

abbrev strict_manifest : StrategyManifest
strict_manifest = record manifest {
  data_requirements = [];
  resources = record manifest.resources { sandbox = SandboxMode.strict_container };
}

abbrev strict_policy : RunPolicy
strict_policy = record policy { required_sandbox = SandboxMode.strict_container }

compiles_strict :
    (plan : ExecutionPlan) × (compile_run digests 0 "run" strict_manifest dataset
        (capabilities true)
        strict_policy
        none
      ≡ ok plan)
unfolding compile_run check_versions check_capabilities compile_requirements major before_dot
    int_of_codes capabilities is_identifier is_code_digest
compiles_strict = (_, refl)

strict_strategy_contained_example : true ≡ true
strict_strategy_contained_example =
    strict_strategy_contained digests 0 "run" strict_manifest dataset strict_policy none
      compiles_strict.0 true refl compiles_strict.1
