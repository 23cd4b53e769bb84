-- ===== src/Contract/Models.antt =====
-- src/psrc/contract/models.py: the declarations that a run is compiled from, and the plan.
-- A frozenset is a list without order, a mapping an association list. The free-form `extensions`
-- and `metadata` that nothing reads are left out.
pub mod Enums
pub mod Values
pub mod Identifiers
pub mod Evidence
pub use Enums.*
pub use Values.{Json, JsonItems, JsonFields, Fields}
use strategy_adapter.Prelude.{
  ℕ, String, ◌≡◌, ◌↔◌, refl, Bool, true, false, not, ◌&&◌, ◌||◌, Option, none, some, List, [], ◌∷◌,
  arith, Eq, option_eq, string_eq, ◌==◌, contains, nonempty, option_beq_iff, keep_if, leb,
  if◌then◌else◌, ◌++◌,
}
use text.Mathlib.TextEquality.{eq_iff}
use strategy_adapter.Decimal.{Decimal}
use strategy_adapter.Domain.Market.{Timestamp}

pub record Timeframe : Type 0 where
  pub mode : TimeframeMode
  pub interval : Option String
  pub timezone : String
  pub calendar : String
  pub alignment : String

-- the truth of an optional text
abbrev pub truthy : Option String → Bool
truthy none = false
truthy (some s) = not (s == "")

abbrev interval_fits : TimeframeMode → Option String → Bool
interval_fits TimeframeMode.event interval = interval == none
interval_fits TimeframeMode.bar interval = truthy interval

unfoldable pub validate_interval : Timeframe → Bool
validate_interval t = interval_fits t.mode t.interval

-- `==` of two timeframes, field by field
abbrev timeframe_beq : Timeframe → Timeframe → Bool
timeframe_beq a b =
    a.mode == b.mode
    && a.interval == b.interval
    && a.timezone == b.timezone
    && a.calendar == b.calendar
    && a.alignment == b.alignment

pub record LifecycleRequirements : Type 0 where
  pub training : TrainingMode
  pub state_checkpointing : Bool

pub record DataRequirement : Type 0 where
  pub stream_id : String
  pub kind : DataKind
  pub timeframe : Timeframe
  pub symbols : List String
  pub required_fields : List String
  pub optional_fields : List String
  pub lookback : ℕ
  pub depth : Option ℕ
  pub max_staleness_ns : Option ℕ

pub record ActionRequirements : Type 0 where
  pub allowed : List ActionKind
  pub max_abs_position : Option Decimal
  pub max_order_quantity : Option Decimal

pub record ResourcePolicy : Type 0 where
  pub sandbox : SandboxMode
  pub network : NetworkMode
  pub filesystem : FilesystemMode
  pub allowed_imports : List String
  pub timeout_seconds : ℕ
  pub memory_mb : ℕ
  pub process_limit : ℕ

abbrev network_modules : List String
network_modules = "aiohttp" ∷ "ftplib" ∷ "http" ∷ "requests" ∷ "smtplib" ∷ "socket" ∷ "urllib" ∷ []

abbrev filesystem_modules : List String
filesystem_modules = "os" ∷ "pathlib" ∷ "shutil" ∷ "tempfile" ∷ []

-- `allowed & modules`
abbrev intersection : List String → List String → List String
intersection xs ys = keep_if (λ x. contains ys x) xs

unfoldable pub validate_imports_against_resource_policy : ResourcePolicy → Bool
validate_imports_against_resource_policy p =
    let by_network =
      if p.network == NetworkMode.deny
      then intersection p.allowed_imports network_modules
      else [] in
    let by_filesystem =
      if p.filesystem == FilesystemMode.unrestricted
      then []
      else intersection p.allowed_imports filesystem_modules in
    not (nonempty (by_network ++ by_filesystem))

pub record StrategyManifest : Type 0 where
  pub contract_version : String
  pub strategy_id : String
  pub strategy_version : String
  pub kind : StrategyKind
  pub entrypoint : String
  pub required_profiles : List String
  pub lifecycle : LifecycleRequirements
  pub data_requirements : List DataRequirement
  pub action_requirements : ActionRequirements
  pub resources : ResourcePolicy
  pub deterministic : Bool
  pub seed : ℕ

pub record DatasetStream : Type 0 where
  pub stream_id : String
  pub kind : DataKind
  pub timeframe : Timeframe
  pub symbols : List String
  pub fields : List String
  pub record_count : ℕ
  pub schema_sha256 : String
  pub data_sha256 : String

pub record DatasetManifest : Type 0 where
  pub contract_version : String
  pub dataset_id : String
  pub dataset_version : String
  pub generated_at : Timestamp
  pub streams : List DatasetStream
  pub public_or_synthetic : Bool

pub record ExecutionSemantics : Type 0 where
  pub partial_fills : Bool
  pub cancel : Bool
  pub replace : ReplaceSupport
  pub same_timestamp_ordering : String
  pub queue_model : Option String
  pub fill_model : String
  pub fee_model : String
  pub slippage_model : String
  pub latency_model : String

pub record EngineCapabilities : Type 0 where
  pub contract_version : String
  pub engine_id : String
  pub engine_version : String
  pub adapter_version : String
  pub support_level : SupportLevel
  pub profiles : List String
  pub data_kinds : List DataKind
  pub action_kinds : List ActionKind
  pub execution : ExecutionSemantics
  pub sandbox_modes : List SandboxMode

pub record RunPolicy : Type 0 where
  pub strict : Bool
  pub allow_lossy : Bool
  pub allowed_transformations : List String
  pub transformation_parameters : List (String × Fields)
  pub required_sandbox : SandboxMode
  pub minimum_engine_support : SupportLevel

pub record CompatibilityRecord : Type 0 where
  pub result : CompatibilityResult
  pub transformation_id : Option String
  pub transformation_version : Option String
  pub input_schema_sha256 : Option String
  pub output_schema_sha256 : Option String
  pub affected_records : ℕ
  pub parameters : Fields
  pub reversible : Bool

pub record ExecutionPlan : Type 0 where
  pub contract_version : String
  pub run_id : String
  pub strategy_id : String
  pub dataset_id : String
  pub engine_id : String
  pub compatibility : List CompatibilityRecord
  pub strategy_manifest_sha256 : String
  pub strategy_code_evidence_sha256 : Option String
  pub dataset_manifest_sha256 : String
  pub engine_capabilities_sha256 : String
  pub run_policy_sha256 : String
  pub compiled_at : Timestamp

pub timeframe_beq_iff : (a b : Timeframe) → (timeframe_beq a b ≡ true) ↔ (a ≡ b)
timeframe_beq_iff a b = (
  λ h. ground (
    arith,
    TimeframeMode-beq_iff a.mode b.mode,
    option_beq_iff a.interval b.interval,
    eq_iff a.timezone b.timezone,
    eq_iff a.calendar b.calendar,
    eq_iff a.alignment b.alignment,
  ),
  λ h. rw h (timeframe_self b),
)
  where
    timeframe_self : (t : Timeframe) → timeframe_beq t t ≡ true
    timeframe_self t = ground (
      arith,
      TimeframeMode-beq_iff t.mode t.mode,
      option_beq_iff t.interval t.interval,
      eq_iff t.timezone t.timezone,
      eq_iff t.calendar t.calendar,
      eq_iff t.alignment t.alignment,
    )

instance abbrev pub timeframe_eq : Eq Timeframe
timeframe_eq = record { beq = timeframe_beq; beq_iff = timeframe_beq_iff }
