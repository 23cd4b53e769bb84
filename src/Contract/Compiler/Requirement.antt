-- ===== src/Contract/Compiler/Requirement.antt =====
-- src/psrc/contract/compiler.py: the body of the loop over the data requirements in `compile_run`.
use strategy_adapter.Prelude.{
  String, Bool, true, false, not, ◌&&◌, Option, none, some, List, [], ◌∷◌, ◌++◌, find?, contains,
  difference, nonempty, ok, raised, raise_if, ◌>>=◌, ◌>>◌, string_eq, ◌==◌, ◌!=◌, if◌then◌else◌,
}
use strategy_adapter.Contract.Errors.{
  ErrorCode, ErrorStage, Raised, Call, violation, python, value_error,
}
use strategy_adapter.Contract.Models.{
  Json, JsonFields, Fields, EngineCapabilities, DatasetManifest, DatasetStream, DataRequirement,
  RunPolicy, CompatibilityRecord, CompatibilityResult, data_kind_eq, timeframe_eq,
}
use strategy_adapter.Contract.Models.Identifiers.{is_identifier}
use strategy_adapter.Contract.Models.Values.{text, object, end, field, null}
use strategy_adapter.Contract.Compiler.Timeframes.{can_resample}
use strategy_adapter.Contract.Compiler.Symbols.{Mapping, symbol_mapping}

-- who asks, for the errors
pub record Context : Type 0 where
  pub run_id : String
  pub strategy_id : String
  pub engine_id : String

-- the `ContractError` of `_fail`
abbrev pub negotiation_violation : Context → ErrorCode → Raised
negotiation_violation c code = violation (record {
  run_id = c.run_id;
  stage = ErrorStage.capability_negotiation;
  code = code;
  strategy_id = some c.strategy_id;
  engine_id = some c.engine_id;
})

-- What `_fail` raises. Of an ill-formed run identifier no `ContractError` can be made; the two other
-- identifiers come from validated models.
abbrev pub negotiation_error : Context → ErrorCode → Raised
negotiation_error c code =
    if is_identifier c.run_id then negotiation_violation c code else python value_error

-- `_find_stream`
abbrev pub find_stream : DatasetManifest → String → Option DatasetStream
find_stream dataset stream_id = find? (λ stream. stream.stream_id == stream_id) dataset.streams

abbrev mapping_json : Mapping → JsonFields
mapping_json [] = end
mapping_json ((source, target) ∷ m) = field source (text target) (mapping_json m)

abbrev stream_record :
    DatasetStream → CompatibilityResult → Option String → Fields → Bool → CompatibilityRecord
stream_record stream result id parameters reversible = record {
  result = result;
  transformation_id = id;
  transformation_version = elim id [ none ↦ none | some _ ↦ some "1.0.0" ];
  input_schema_sha256 = some stream.schema_sha256;
  output_schema_sha256 = some stream.schema_sha256;
  affected_records = stream.record_count;
  parameters = parameters;
  reversible = reversible;
}

abbrev pub mapped_record : DatasetStream → Mapping → CompatibilityRecord
mapped_record stream mapping =
    stream_record stream CompatibilityResult.transformed_lossless (some "symbol.map.v1")
      (("stream_id", text stream.stream_id) ∷ ("mapping", object (mapping_json mapping)) ∷ []) true

abbrev interval_json : Option String → Json
interval_json none = null
interval_json (some i) = text i

abbrev pub resampled_record : DatasetStream → DataRequirement → CompatibilityRecord
resampled_record stream requirement =
    stream_record stream CompatibilityResult.transformed_lossy (some "bar.resample.v1")
      (("stream_id", text stream.stream_id)
        ∷ ("source_interval", interval_json stream.timeframe.interval)
        ∷ ("target_interval", interval_json requirement.timeframe.interval)
        ∷ [])
      false

abbrev pub exact_record : DatasetStream → CompatibilityRecord
exact_record stream = stream_record stream CompatibilityResult.exact none [] true

module _ (context : Context) (policy : RunPolicy) where
  unfoldable pub mapped_or_fail : DatasetStream → Option Mapping → Call (List CompatibilityRecord)
  mapped_or_fail stream none = raised (negotiation_error context ErrorCode.symbol_mapping_failed)
  mapped_or_fail stream (some mapping) = ok (mapped_record stream mapping ∷ [])

  -- the part on symbols
  unfoldable pub compile_symbols : DatasetStream → DataRequirement → Call (List CompatibilityRecord)
  unfolding mapped_or_fail
  compile_symbols stream requirement =
      if nonempty (difference requirement.symbols stream.symbols)
      then mapped_or_fail stream (symbol_mapping stream requirement.symbols policy)
      else ok []

  -- the part on the timeframe
  unfoldable pub compile_timeframe :
      DatasetStream → DataRequirement → Call (List CompatibilityRecord)
  compile_timeframe stream requirement =
      if stream.timeframe == requirement.timeframe
      then ok []
      else if contains policy.allowed_transformations "bar.resample.v1"
          && policy.allow_lossy
          && can_resample stream requirement.timeframe
      then ok (resampled_record stream requirement ∷ [])
      else raised (negotiation_error context ErrorCode.data_timeframe_mismatch)

  -- an exact record stands where nothing was transformed
  abbrev pub or_exact : DatasetStream → List CompatibilityRecord → List CompatibilityRecord
  or_exact stream [] = exact_record stream ∷ []
  or_exact stream (r ∷ rs) = r ∷ rs

  -- the checks on the stream that was found
  unfoldable pub compile_stream :
      EngineCapabilities → DatasetStream → DataRequirement → Call (List CompatibilityRecord)
  compile_stream engine stream requirement = do
    raise_if (not (contains engine.data_kinds requirement.kind))
        (negotiation_error context ErrorCode.engine_capability_unsupported)
    raise_if (stream.kind != requirement.kind)
        (negotiation_error context ErrorCode.data_stream_missing)
    raise_if (nonempty (difference requirement.required_fields stream.fields))
        (negotiation_error context ErrorCode.data_field_missing)
    mapped ← compile_symbols stream requirement
    resampled ← compile_timeframe stream requirement
    ok (or_exact stream (mapped ++ resampled))

  unfoldable pub compile_found :
      EngineCapabilities → DataRequirement → Option DatasetStream → Call (List CompatibilityRecord)
  compile_found engine requirement none =
      raised (negotiation_error context ErrorCode.data_stream_missing)
  compile_found engine requirement (some stream) = compile_stream engine stream requirement

  unfoldable pub compile_requirement :
      DatasetManifest → EngineCapabilities → DataRequirement → Call (List CompatibilityRecord)
  unfolding compile_found
  compile_requirement dataset engine requirement =
      compile_found engine requirement (find_stream dataset requirement.stream_id)

  unfoldable pub compile_requirements :
      DatasetManifest → EngineCapabilities → List DataRequirement → Call (List CompatibilityRecord)
  compile_requirements dataset engine [] = ok []
  compile_requirements dataset engine (requirement ∷ requirements) = do
    first ← compile_requirement dataset engine requirement
    rest ← compile_requirements dataset engine requirements
    ok (first ++ rest)
