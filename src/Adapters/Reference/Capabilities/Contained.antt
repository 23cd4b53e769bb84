-- ===== src/Adapters/Reference/Capabilities/Contained.antt =====
-- src/psrc/contract/compiler.py, src/psrc/adapters/reference.py: strict strategies on the reference
-- engine.
use strategy_adapter.Prelude.{
  String, Bool, true, false, Option, ◌≡◌, refl, subst, ok, ◌≤◌, contains, arith,
}
use strategy_adapter.Contract.Models.{
  StrategyManifest, DatasetManifest, RunPolicy, ExecutionPlan, SandboxMode, sandbox_mode_eq,
}
use strategy_adapter.Contract.Compiler.Plan.{Digests, compile_run, sandbox_rank}
use strategy_adapter.Contract.Compiler.Compatible.{compile_run_iff}
use strategy_adapter.Domain.Market.{Timestamp}
use strategy_adapter.Adapters.Reference.Capabilities.{capabilities}

strict_required :
    (required : SandboxMode)
    → sandbox_rank SandboxMode.strict_container ≤ sandbox_rank required
    → required ≡ SandboxMode.strict_container
strict_required SandboxMode.development h = ground arith
strict_required SandboxMode.strict_container h = refl

strict_mode_listed :
    (strict : Bool)
    → contains (capabilities strict).sandbox_modes SandboxMode.strict_container ≡ true
    → strict ≡ true
unfolding capabilities
strict_mode_listed true h = refl
strict_mode_listed false h = cc

-- When a plan is compiled for a strategy that asks for the strict container and for the reference
-- engine, whatever the dataset and the policy, the engine declares that it stands in such a
-- container.
pub strict_strategy_contained :
    (digests : Digests) (now : Timestamp) (run_id : String) (strategy : StrategyManifest)
    (dataset : DatasetManifest) (policy : RunPolicy) (code_evidence : Option String)
    (plan : ExecutionPlan) (strict : Bool)
    → strategy.resources.sandbox ≡ SandboxMode.strict_container
    → compile_run digests now run_id strategy dataset (capabilities strict) policy code_evidence
      ≡ ok plan
    → strict ≡ true
strict_strategy_contained digests now run_id strategy dataset policy code_evidence plan strict asks
      compiles =
    let accepted =
      (compile_run_iff digests now run_id strategy dataset (capabilities strict) policy
          code_evidence).0
        (plan, compiles) in
    let compatible = accepted.0 in
    let required = strict_required policy.required_sandbox (
      subst (λ (mode : SandboxMode). sandbox_rank mode ≤ sandbox_rank policy.required_sandbox) asks
        compatible.sandbox_kept) in
    strict_mode_listed strict (
      subst (λ (mode : SandboxMode). contains (capabilities strict).sandbox_modes mode ≡ true)
        required compatible.sandboxed)
