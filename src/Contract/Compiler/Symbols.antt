-- ===== src/Contract/Compiler/Symbols.antt =====
-- src/psrc/contract/compiler.py: `_symbol_mapping`.
use strategy_adapter.Prelude.{
  String, Bool, not, ◌&&◌, Option, none, some, List, [], ◌∷◌, map, contains, distinct, difference,
  subset, nonempty, keep_if, string_eq, if◌then◌else◌,
}
use strategy_adapter.Contract.Models.{Json, JsonFields, DatasetStream, RunPolicy}
use strategy_adapter.Contract.Models.Values.{text, object, end, field, lookup}

abbrev pub Mapping : Type 0
Mapping = List (String × String)

-- `policy.transformation_parameters.get(id, {}).get("mapping")`
abbrev pub raw_mapping : RunPolicy → String → Option Json
raw_mapping policy id = elim (lookup id policy.transformation_parameters) [
  | none ↦ none
  | some parameters ↦ lookup "mapping" parameters
]

-- an entry counts if its target is a text, its source is in the stream and its target is required
unfoldable pub usable_entries : List String → List String → JsonFields → Mapping
usable_entries symbols required end = []
usable_entries symbols required (field source (text target) fields) =
    let rest = usable_entries symbols required fields in
    if contains symbols source && contains required target then (source, target) ∷ rest else rest
usable_entries symbols required (field source _ fields) = usable_entries symbols required fields

abbrev pub targets : Mapping → List String
targets = map (λ e. e.1)

-- one to one, no target already present, and every missing symbol a target
abbrev pub is_reversible : List String → List String → Mapping → Bool
is_reversible symbols required mapping =
    distinct (targets mapping)
    && not (nonempty (keep_if (λ t. contains symbols t) (targets mapping)))
    && subset (difference required symbols) (targets mapping)

unfoldable pub checked_mapping : List String → List String → Option Json → Option Mapping
checked_mapping symbols required (some (object (field k v fields))) =
    let mapping = usable_entries symbols required (field k v fields) in
    if is_reversible symbols required mapping then some mapping else none
checked_mapping symbols required _ = none

-- `_symbol_mapping`
unfoldable pub symbol_mapping : DatasetStream → List String → RunPolicy → Option Mapping
unfolding checked_mapping
symbol_mapping stream required policy =
    if not (contains policy.allowed_transformations "symbol.map.v1")
    then none
    else checked_mapping stream.symbols required (raw_mapping policy "symbol.map.v1")
