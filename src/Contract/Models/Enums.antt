-- ===== src/Contract/Models/Enums.antt =====
-- The enumerations of src/psrc/contract/models.py, each with its equality test.
use strategy_adapter.Prelude.{ℕ, ◌≡◌, ◌↔◌, true, arith, Eq, nat_beq}

pub data StrategyKind : Type 0 where
  rule supervised reinforcement_learning : StrategyKind

pub data TrainingMode : Type 0 where
  required not_required : TrainingMode

pub data TimeframeMode : Type 0 where
  event bar : TimeframeMode

pub data DataKind : Type 0 where
  bar trade quote_l1 book_snapshot_l2 book_delta_l2 mbo_event : DataKind
  corporate_action instrument_status custom : DataKind

pub data ActionKind : Type 0 where
  no_op prediction target_position target_weight submit_order cancel_order : ActionKind
  replace_order : ActionKind

pub data SandboxMode : Type 0 where
  development strict_container : SandboxMode

pub data NetworkMode : Type 0 where
  deny allow : NetworkMode

pub data FilesystemMode : Type 0 where
  artifact_store_only read_only_data unrestricted : FilesystemMode

pub data CompatibilityResult : Type 0 where
  exact transformed_lossless transformed_lossy unsupported : CompatibilityResult

pub data SupportLevel : Type 0 where
  profiled adapter_available conformance_verified production_certified : SupportLevel

pub data ReplaceSupport : Type 0 where
  native cancel_new unsupported : ReplaceSupport

-- A test compares positions in the declaration.
abbrev pub strategy_kind_index : StrategyKind → ℕ
strategy_kind_index StrategyKind.rule = 0
strategy_kind_index StrategyKind.supervised = 1
strategy_kind_index StrategyKind.reinforcement_learning = 2

pub StrategyKind-beq_iff :
    (a b : StrategyKind)
    → (nat_beq (strategy_kind_index a) (strategy_kind_index b) ≡ true) ↔ (a ≡ b)
StrategyKind-beq_iff a b = (λ h. ground arith, λ h. ground arith)

instance abbrev pub strategy_kind_eq : Eq StrategyKind
strategy_kind_eq = record {
  beq = λ a b. nat_beq (strategy_kind_index a) (strategy_kind_index b);
  beq_iff = StrategyKind-beq_iff;
}

abbrev pub training_mode_index : TrainingMode → ℕ
training_mode_index TrainingMode.required = 0
training_mode_index TrainingMode.not_required = 1

pub TrainingMode-beq_iff :
    (a b : TrainingMode)
    → (nat_beq (training_mode_index a) (training_mode_index b) ≡ true) ↔ (a ≡ b)
TrainingMode-beq_iff a b = (λ h. ground arith, λ h. ground arith)

instance abbrev pub training_mode_eq : Eq TrainingMode
training_mode_eq = record {
  beq = λ a b. nat_beq (training_mode_index a) (training_mode_index b);
  beq_iff = TrainingMode-beq_iff;
}

abbrev pub timeframe_mode_index : TimeframeMode → ℕ
timeframe_mode_index TimeframeMode.event = 0
timeframe_mode_index TimeframeMode.bar = 1

pub TimeframeMode-beq_iff :
    (a b : TimeframeMode)
    → (nat_beq (timeframe_mode_index a) (timeframe_mode_index b) ≡ true) ↔ (a ≡ b)
TimeframeMode-beq_iff a b = (λ h. ground arith, λ h. ground arith)

instance abbrev pub timeframe_mode_eq : Eq TimeframeMode
timeframe_mode_eq = record {
  beq = λ a b. nat_beq (timeframe_mode_index a) (timeframe_mode_index b);
  beq_iff = TimeframeMode-beq_iff;
}

abbrev pub data_kind_index : DataKind → ℕ
data_kind_index DataKind.bar = 0
data_kind_index DataKind.trade = 1
data_kind_index DataKind.quote_l1 = 2
data_kind_index DataKind.book_snapshot_l2 = 3
data_kind_index DataKind.book_delta_l2 = 4
data_kind_index DataKind.mbo_event = 5
data_kind_index DataKind.corporate_action = 6
data_kind_index DataKind.instrument_status = 7
data_kind_index DataKind.custom = 8

pub DataKind-beq_iff :
    (a b : DataKind) → (nat_beq (data_kind_index a) (data_kind_index b) ≡ true) ↔ (a ≡ b)
DataKind-beq_iff a b = (λ h. ground arith, λ h. ground arith)

instance abbrev pub data_kind_eq : Eq DataKind
data_kind_eq = record {
  beq = λ a b. nat_beq (data_kind_index a) (data_kind_index b);
  beq_iff = DataKind-beq_iff;
}

abbrev pub action_kind_index : ActionKind → ℕ
action_kind_index ActionKind.no_op = 0
action_kind_index ActionKind.prediction = 1
action_kind_index ActionKind.target_position = 2
action_kind_index ActionKind.target_weight = 3
action_kind_index ActionKind.submit_order = 4
action_kind_index ActionKind.cancel_order = 5
action_kind_index ActionKind.replace_order = 6

pub ActionKind-beq_iff :
    (a b : ActionKind) → (nat_beq (action_kind_index a) (action_kind_index b) ≡ true) ↔ (a ≡ b)
ActionKind-beq_iff a b = (λ h. ground arith, λ h. ground arith)

instance abbrev pub action_kind_eq : Eq ActionKind
action_kind_eq = record {
  beq = λ a b. nat_beq (action_kind_index a) (action_kind_index b);
  beq_iff = ActionKind-beq_iff;
}

abbrev pub sandbox_mode_index : SandboxMode → ℕ
sandbox_mode_index SandboxMode.development = 0
sandbox_mode_index SandboxMode.strict_container = 1

pub SandboxMode-beq_iff :
    (a b : SandboxMode) → (nat_beq (sandbox_mode_index a) (sandbox_mode_index b) ≡ true) ↔ (a ≡ b)
SandboxMode-beq_iff a b = (λ h. ground arith, λ h. ground arith)

instance abbrev pub sandbox_mode_eq : Eq SandboxMode
sandbox_mode_eq = record {
  beq = λ a b. nat_beq (sandbox_mode_index a) (sandbox_mode_index b);
  beq_iff = SandboxMode-beq_iff;
}

abbrev pub network_mode_index : NetworkMode → ℕ
network_mode_index NetworkMode.deny = 0
network_mode_index NetworkMode.allow = 1

pub NetworkMode-beq_iff :
    (a b : NetworkMode) → (nat_beq (network_mode_index a) (network_mode_index b) ≡ true) ↔ (a ≡ b)
NetworkMode-beq_iff a b = (λ h. ground arith, λ h. ground arith)

instance abbrev pub network_mode_eq : Eq NetworkMode
network_mode_eq = record {
  beq = λ a b. nat_beq (network_mode_index a) (network_mode_index b);
  beq_iff = NetworkMode-beq_iff;
}

abbrev pub filesystem_mode_index : FilesystemMode → ℕ
filesystem_mode_index FilesystemMode.artifact_store_only = 0
filesystem_mode_index FilesystemMode.read_only_data = 1
filesystem_mode_index FilesystemMode.unrestricted = 2

pub FilesystemMode-beq_iff :
    (a b : FilesystemMode)
    → (nat_beq (filesystem_mode_index a) (filesystem_mode_index b) ≡ true) ↔ (a ≡ b)
FilesystemMode-beq_iff a b = (λ h. ground arith, λ h. ground arith)

instance abbrev pub filesystem_mode_eq : Eq FilesystemMode
filesystem_mode_eq = record {
  beq = λ a b. nat_beq (filesystem_mode_index a) (filesystem_mode_index b);
  beq_iff = FilesystemMode-beq_iff;
}

abbrev pub compatibility_result_index : CompatibilityResult → ℕ
compatibility_result_index CompatibilityResult.exact = 0
compatibility_result_index CompatibilityResult.transformed_lossless = 1
compatibility_result_index CompatibilityResult.transformed_lossy = 2
compatibility_result_index CompatibilityResult.unsupported = 3

pub CompatibilityResult-beq_iff :
    (a b : CompatibilityResult)
    → (nat_beq (compatibility_result_index a) (compatibility_result_index b) ≡ true) ↔ (a ≡ b)
CompatibilityResult-beq_iff a b = (λ h. ground arith, λ h. ground arith)

instance abbrev pub compatibility_result_eq : Eq CompatibilityResult
compatibility_result_eq = record {
  beq = λ a b. nat_beq (compatibility_result_index a) (compatibility_result_index b);
  beq_iff = CompatibilityResult-beq_iff;
}
