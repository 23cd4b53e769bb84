-- ===== src/Contract/Compiler/Specification.antt =====
-- What a plan promises, independently of the order of the compiler's checks: when a requirement is
-- met, and when the declarations of a run are compatible.
use strategy_adapter.Prelude.{
  ◌≤◌, ◌≡◌, ◌⊎◌, true, false, some, List, [], ◌∷◌, All, contains, difference, nonempty, ok, Eq,
  string_eq, arith, refl,
}
use strategy_adapter.Prelude.Int.{pos}
use strategy_adapter.Contract.Models.{
  StrategyManifest, EngineCapabilities, DatasetManifest, DatasetStream, DataRequirement, RunPolicy,
  data_kind_eq, action_kind_eq, sandbox_mode_eq,
}
use strategy_adapter.Contract.Compiler.Timeframes.{major, can_resample}
use strategy_adapter.Contract.Compiler.Symbols.{Mapping, symbol_mapping}
use strategy_adapter.Contract.Compiler.Requirement.{find_stream}
use strategy_adapter.Contract.Compiler.Plan.{sandbox_rank, support_rank}

-- every element of the first list is in the second
abbrev pub Included {ℓ} : {A : Type ℓ} ⦃e : Eq A⦄ → List A → List A → Type 0
Included xs ys = All (λ x. contains ys x ≡ true) xs

module _ {ℓ} {A : Type ℓ} ⦃e : Eq A⦄ where
  pub difference_empty : (xs ys : List A) → nonempty (difference xs ys) ≡ false → Included xs ys
  difference_empty [] ys h = tt
  difference_empty (x ∷ xs) ys h = ground (arith, difference_empty xs ys)

  pub Included-difference : (xs ys : List A) → Included xs ys → nonempty (difference xs ys) ≡ false
  Included-difference [] ys h = refl
  Included-difference (x ∷ xs) ys h = ground (arith, Included-difference xs ys h.1)

-- a stream has the symbols, or the policy's mapping supplies them
abbrev pub HasSymbols : RunPolicy → DatasetStream → DataRequirement → Type 0
HasSymbols policy stream requirement =
    Included requirement.symbols stream.symbols
    ⊎ ((m : Mapping) × (symbol_mapping stream requirement.symbols policy ≡ some m))

-- a stream has the timeframe, or may be resampled to it
abbrev pub HasTimeframe : RunPolicy → DatasetStream → DataRequirement → Type 0
HasTimeframe policy stream requirement =
    (stream.timeframe ≡ requirement.timeframe)
    ⊎ ((contains policy.allowed_transformations "bar.resample.v1" ≡ true)
        × (policy.allow_lossy ≡ true)
        × (can_resample stream requirement.timeframe ≡ true))

module _ (policy : RunPolicy) (dataset : DatasetManifest) (engine : EngineCapabilities) where
  pub record IsMet (requirement : DataRequirement) : Type 0 where
    pub stream : DatasetStream
    pub found : find_stream dataset requirement.stream_id ≡ some stream
    pub consumable : contains engine.data_kinds requirement.kind ≡ true
    pub same_kind : stream.kind ≡ requirement.kind
    pub fields : Included requirement.required_fields stream.fields
    pub symbols : HasSymbols policy stream requirement
    pub timeframe : HasTimeframe policy stream requirement

  pub record IsCompatible (strategy : StrategyManifest) : Type 0 where
    pub strategy_major : major strategy.contract_version ≡ ok (pos 1)
    pub dataset_major : major dataset.contract_version ≡ ok (pos 1)
    pub engine_major : major engine.contract_version ≡ ok (pos 1)
    pub sandbox_kept :
        sandbox_rank strategy.resources.sandbox ≤ sandbox_rank policy.required_sandbox
    pub supported : support_rank policy.minimum_engine_support ≤ support_rank engine.support_level
    pub profiles : Included strategy.required_profiles engine.profiles
    pub actions : Included strategy.action_requirements.allowed engine.action_kinds
    pub requirements : All IsMet strategy.data_requirements
    pub sandboxed : contains engine.sandbox_modes policy.required_sandbox ≡ true
