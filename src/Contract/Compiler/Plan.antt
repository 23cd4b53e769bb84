-- ===== src/Contract/Compiler/Plan.antt =====
-- src/psrc/contract/compiler.py: `compile_run`.
use strategy_adapter.Prelude.{
  ℕ, String, Bool, true, not, ◌&&◌, ◌||◌, Option, List, ltb, nat_beq, contains, difference,
  nonempty, ok, raise_if, ◌>>=◌, ◌>>◌, string_eq,
}
use strategy_adapter.Prelude.Int.{ℤ, pos, negsuc}
use strategy_adapter.Contract.Errors.{ErrorCode, Call, python, value_error}
use strategy_adapter.Contract.Models.{
  StrategyManifest, EngineCapabilities, DatasetManifest, RunPolicy, ExecutionPlan,
  CompatibilityRecord, SandboxMode, development, strict_container, SupportLevel, profiled,
  adapter_available, conformance_verified, production_certified, action_kind_eq, sandbox_mode_eq,
}
use strategy_adapter.Contract.Models.Identifiers.{is_identifier, is_code_digest}
use strategy_adapter.Domain.Market.{Timestamp}
use strategy_adapter.Contract.Compiler.Timeframes.{major}
use strategy_adapter.Contract.Compiler.Requirement.{
  Context, negotiation_error, compile_requirements,
}

-- `z != CONTRACT_MAJOR`
abbrev pub is_other_major : ℤ → Bool
is_other_major (pos n) = not (nat_beq n 1)
is_other_major (negsuc n) = true

-- The three versions in turn; an unreadable one raises before any is judged.
unfoldable pub check_versions :
    Context → StrategyManifest → DatasetManifest → EngineCapabilities → Call (Unit {0})
check_versions c strategy dataset engine = do
  s ← major strategy.contract_version
  d ← major dataset.contract_version
  e ← major engine.contract_version
  raise_if (is_other_major s || is_other_major d || is_other_major e)
      (negotiation_error c ErrorCode.contract_version_unsupported)

abbrev pub sandbox_rank : SandboxMode → ℕ
sandbox_rank development = 0
sandbox_rank strict_container = 1

abbrev pub support_rank : SupportLevel → ℕ
support_rank profiled = 0
support_rank adapter_available = 1
support_rank conformance_verified = 2
support_rank production_certified = 3

-- the checks that no stream is needed for
unfoldable pub check_capabilities :
    Context → StrategyManifest → EngineCapabilities → RunPolicy → Call (Unit {0})
check_capabilities c strategy engine policy = do
  raise_if (ltb (sandbox_rank policy.required_sandbox) (sandbox_rank strategy.resources.sandbox))
      (negotiation_error c ErrorCode.sandbox_policy_downgrade)
  raise_if (ltb (support_rank engine.support_level) (support_rank policy.minimum_engine_support))
      (negotiation_error c ErrorCode.engine_capability_unsupported)
  raise_if (nonempty (difference strategy.required_profiles engine.profiles))
      (negotiation_error c ErrorCode.engine_capability_unsupported)
  raise_if (nonempty (difference strategy.action_requirements.allowed engine.action_kinds))
      (negotiation_error c ErrorCode.engine_capability_unsupported)

-- `sha256_model` of each of the declarations
pub record Digests : Type 0 where
  pub strategy_sha256 : StrategyManifest → String
  pub dataset_sha256 : DatasetManifest → String
  pub engine_sha256 : EngineCapabilities → String
  pub policy_sha256 : RunPolicy → String

abbrev pub contract_version : String
contract_version = "1.1.0"

abbrev pub context_of : String → StrategyManifest → EngineCapabilities → Context
context_of run_id strategy engine = record {
  run_id = run_id;
  strategy_id = strategy.strategy_id;
  engine_id = engine.engine_id;
}

module _ (digests : Digests) (now : Timestamp) where
  abbrev pub plan_of :
      String
      → StrategyManifest
      → DatasetManifest
      → EngineCapabilities
      → RunPolicy
      → Option String
      → List CompatibilityRecord
      → ExecutionPlan
  plan_of run_id strategy dataset engine policy code_evidence records = record {
    contract_version = contract_version;
    run_id = run_id;
    strategy_id = strategy.strategy_id;
    dataset_id = dataset.dataset_id;
    engine_id = engine.engine_id;
    compatibility = records;
    strategy_manifest_sha256 = digests.strategy_sha256 strategy;
    strategy_code_evidence_sha256 = code_evidence;
    dataset_manifest_sha256 = digests.dataset_sha256 dataset;
    engine_capabilities_sha256 = digests.engine_sha256 engine;
    run_policy_sha256 = digests.policy_sha256 policy;
    compiled_at = now;
  }

  unfoldable pub compile_run :
      String
      → StrategyManifest
      → DatasetManifest
      → EngineCapabilities
      → RunPolicy
      → Option String
      → Call ExecutionPlan
  compile_run run_id strategy dataset engine policy code_evidence = do
    let c = context_of run_id strategy engine
    check_versions c strategy dataset engine
    check_capabilities c strategy engine policy
    records ← compile_requirements c policy dataset engine strategy.data_requirements
    raise_if (not (contains engine.sandbox_modes policy.required_sandbox))
        (negotiation_error c ErrorCode.sandbox_unavailable)
    raise_if (not (is_identifier run_id && is_code_digest code_evidence)) (python value_error)
    ok (plan_of run_id strategy dataset engine policy code_evidence records)
