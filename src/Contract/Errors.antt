-- ===== src/Contract/Errors.antt =====
-- src/psrc/contract/errors.py: stages, codes, the machine-readable error, and what can be raised.
-- An error's message, details and cause chain are text for a reader, and are left out.
use strategy_adapter.Prelude.{String, Option, Result}

pub data ErrorStage : Type 0 where
  discovery validation capability_negotiation initialization training artifact : ErrorStage
  inference action_validation backtest sandbox reporting : ErrorStage

pub data ErrorCode : Type 0 where
  contract_version_unsupported manifest_invalid lifecycle_transition_invalid : ErrorCode
  data_stream_missing data_field_missing data_timeframe_mismatch data_ordering_invalid : ErrorCode
  data_hash_mismatch source_hash_mismatch compatibility_transform_failed : ErrorCode
  symbol_mapping_failed engine_capability_unsupported engine_dependency_missing : ErrorCode
  artifact_not_found artifact_hash_mismatch action_invalid order_rejected : ErrorCode
  training_failed inference_failed backtest_failed sandbox_unavailable : ErrorCode
  sandbox_policy_downgrade sandbox_policy_denied sandbox_timeout : ErrorCode
  sandbox_resource_exhausted sandbox_execution_failed : ErrorCode

pub record ContractError : Type 0 where
  pub run_id : String
  pub stage : ErrorStage
  pub code : ErrorCode
  pub strategy_id : Option String
  pub engine_id : Option String

-- the exceptions of Python and its libraries that the program meets
pub data PythonError : Type 0 where
  value_error type_error assertion_error arithmetic_error key_error index_error : PythonError
  runtime_error os_error other_error : PythonError

-- Whatever a call can raise: a `ContractViolation`, or another exception.
pub data Raised : Type 0 where
  violation : ContractError → Raised
  python : PythonError → Raised

abbrev pub Call : Type 0 → Type 0
Call A = Result Raised A
