-- ===== src/Contract/Compatibility.antt =====
-- src/psrc/contract/compatibility.py: the planned transformations of the market events.
pub mod Resample
pub mod Untouched
use strategy_adapter.Prelude.{
  String, Bool, true, false, Option, none, some, List, [], ◌∷◌, map, ok, raised, ◌>>=◌, string_eq,
  option_eq, ◌==◌, if◌then◌else◌,
}
use Prim.Native.String.{◌++◌}
use strategy_adapter.Prelude.Dict.{Dict, lookup, get_or}
use strategy_adapter.Contract.Errors.{Call, python, value_error}
use strategy_adapter.Contract.Models.{
  Json, JsonFields, Fields, CompatibilityRecord, CompatibilityResult, compatibility_result_eq,
  ExecutionPlan,
}
use strategy_adapter.Contract.Models.Values.{text, object, end, field}
use strategy_adapter.Domain.Market.{MarketEvent}
use Resample.{resample_bars}

-- a mapping of texts to texts, if it is one
texts_of : JsonFields → Option (Dict String)
texts_of end = some []
texts_of (field k (text t) fields) = elim (texts_of fields) [
  | none ↦ none
  | some m ↦ some ((k, t) ∷ m)
]
texts_of (field k _ fields) = none

unfoldable pub mapping_of : Option Json → Option (Dict String)
unfolding texts_of
mapping_of (some (object fields)) = texts_of fields
mapping_of _ = none

-- an event of a mapped instrument gets the new name, and its source says so
unfoldable pub map_symbol : Dict String → MarketEvent → MarketEvent
map_symbol mapping event = elim (lookup event.instrument_id mapping) [
  | none ↦ event
  | some target ↦ record event {
    instrument_id = target;
    source = "compat.symbol-map.v1:" ++ event.source;
  }
]

unfoldable pub map_or_fail : Option (Dict String) → List MarketEvent → Call (List MarketEvent)
map_or_fail none events = raised (python value_error)
map_or_fail (some mapping) events = ok (map (map_symbol mapping) events)

unfoldable pub resample_or_fail : Option Json → List MarketEvent → Call (List MarketEvent)
resample_or_fail (some (text target)) events = resample_bars events target
resample_or_fail _ events = raised (python value_error)

-- one record of a plan
unfoldable pub apply_record : CompatibilityRecord → List MarketEvent → Call (List MarketEvent)
unfolding map_or_fail resample_or_fail
apply_record r events =
    if r.result == CompatibilityResult.exact
    then ok events
    else if r.transformation_id == some "symbol.map.v1"
    then map_or_fail (mapping_of (lookup "mapping" r.parameters)) events
    else if r.transformation_id == some "bar.resample.v1"
    then resample_or_fail (lookup "target_interval" r.parameters) events
    else raised (python value_error)

unfoldable pub apply_records : List CompatibilityRecord → List MarketEvent → Call (List MarketEvent)
apply_records [] events = ok events
apply_records (r ∷ rs) events =
    apply_record r events >>= λ transformed. apply_records rs transformed

-- `apply_compatibility_plan`
unfoldable pub apply_compatibility_plan : List MarketEvent → ExecutionPlan → Call (List MarketEvent)
apply_compatibility_plan events plan = apply_records plan.compatibility events
