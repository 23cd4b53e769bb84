-- ===== src/Tests/Data.antt =====
-- The declarations, events and strategies of the tests.
use strategy_adapter.Prelude.{ℕ, zero, suc, String, true, false, none, some, List, [], ◌∷◌, ok}
use strategy_adapter.Decimal.{of_nat}
use strategy_adapter.Contract.Models.{
  StrategyManifest, EngineCapabilities, DatasetManifest, DatasetStream, RunPolicy, ExecutionPlan,
  Timeframe, StrategyKind, TrainingMode, TimeframeMode, DataKind, ActionKind, SandboxMode,
  NetworkMode, FilesystemMode, SupportLevel, ReplaceSupport,
}
use strategy_adapter.Contract.Models.Values.{text, object, end, field}
use strategy_adapter.Contract.Compiler.Plan.{Digests}
use strategy_adapter.Domain.Market.{MarketEvent, bar}
use strategy_adapter.Domain.Actions.{
  Action, target_position, submit_order, Side, OrderType, TimeInForce,
}
use strategy_adapter.Runtime.Strategy.{RuntimeStrategy}
use strategy_adapter.Adapters.Reference.Settlement.{ReferenceEngine}
use strategy_adapter.Adapters.Reference.Run.{Clock}

abbrev pub minutes : String → Timeframe
minutes interval = record {
  mode = TimeframeMode.bar;
  interval = some interval;
  timezone = "UTC";
  calendar = "24x7";
  alignment = "left";
}

-- Five-minute bars of ABC are wanted.
abbrev pub manifest : StrategyManifest
manifest = record {
  contract_version = "1.1.0";
  strategy_id = "crossing";
  strategy_version = "1.0.0";
  kind = StrategyKind.rule;
  entrypoint = "strategies.crossing:Strategy";
  required_profiles = [];
  lifecycle = record { training = TrainingMode.not_required; state_checkpointing = false };
  data_requirements =
      record {
        stream_id = "bars";
        kind = DataKind.bar;
        timeframe = minutes "PT5M";
        symbols = "ABC" ∷ [];
        required_fields = "close" ∷ [];
        optional_fields = [];
        lookback = 0;
        depth = none;
        max_staleness_ns = none;
      }
      ∷ [];
  action_requirements = record {
    allowed = ActionKind.target_position ∷ ActionKind.submit_order ∷ [];
    max_abs_position = some (of_nat 100);
    max_order_quantity = some (of_nat 50);
  };
  resources = record {
    sandbox = SandboxMode.development;
    network = NetworkMode.deny;
    filesystem = FilesystemMode.artifact_store_only;
    allowed_imports = [];
    timeout_seconds = 60;
    memory_mb = 512;
    process_limit = 1;
  };
  deterministic = true;
  seed = 7;
}

-- One-minute bars of XYZ are there.
abbrev pub stream : DatasetStream
stream = record {
  stream_id = "bars";
  kind = DataKind.bar;
  timeframe = minutes "PT1M";
  symbols = "XYZ" ∷ [];
  fields = "open" ∷ "close" ∷ [];
  record_count = 3;
  schema_sha256 = "schema";
  data_sha256 = "data";
}

abbrev pub dataset : DatasetManifest
dataset = record {
  contract_version = "1.0.0";
  dataset_id = "synthetic";
  dataset_version = "1";
  generated_at = 0;
  streams = stream ∷ [];
  public_or_synthetic = true;
}

abbrev pub capabilities : EngineCapabilities
capabilities = record {
  contract_version = "1.1.0";
  engine_id = "reference";
  engine_version = "1";
  adapter_version = "1";
  support_level = SupportLevel.conformance_verified;
  profiles = [];
  data_kinds = DataKind.bar ∷ [];
  action_kinds = ActionKind.target_position ∷ ActionKind.submit_order ∷ [];
  execution = record {
    partial_fills = false;
    cancel = true;
    replace = ReplaceSupport.native;
    same_timestamp_ordering = "sequence";
    queue_model = none;
    fill_model = "next_event";
    fee_model = "rate";
    slippage_model = "bps";
    latency_model = "none";
  };
  sandbox_modes = SandboxMode.development ∷ [];
}

-- Both transformations are allowed; XYZ may stand for ABC.
abbrev pub policy : RunPolicy
policy = record {
  strict = true;
  allow_lossy = true;
  allowed_transformations = "symbol.map.v1" ∷ "bar.resample.v1" ∷ [];
  transformation_parameters =
      ("symbol.map.v1", ("mapping", object (field "XYZ" (text "ABC") end)) ∷ []) ∷ [];
  required_sandbox = SandboxMode.development;
  minimum_engine_support = SupportLevel.adapter_available;
}

abbrev pub digests : Digests
digests = record {
  strategy_sha256 = λ s. "strategy";
  dataset_sha256 = λ d. "dataset";
  engine_sha256 = λ e. "engine";
  policy_sha256 = λ p. "policy";
}

-- a plan that transforms nothing
abbrev pub plan : ExecutionPlan
plan = record {
  contract_version = "1.1.0";
  run_id = "run";
  strategy_id = "crossing";
  dataset_id = "synthetic";
  engine_id = "reference";
  compatibility = [];
  strategy_manifest_sha256 = "strategy";
  strategy_code_evidence_sha256 = none;
  dataset_manifest_sha256 = "dataset";
  engine_capabilities_sha256 = "engine";
  run_policy_sha256 = "policy";
  compiled_at = 0;
}

-- a bar that ends at `time`, at this price
abbrev pub bar_at : ℕ → String → ℕ → MarketEvent
bar_at time event_id price = record {
  event_id = event_id;
  instrument_id = "ABC";
  event_time = time;
  available_time = time;
  receive_time = time;
  sequence = 0;
  source = "synthetic";
  payload = bar (record {
    open_price = of_nat price;
    high = of_nat price;
    low = of_nat price;
    close = of_nat price;
    volume = of_nat 10;
  });
}

abbrev pub events : List MarketEvent
events = bar_at 1 "e1" 100 ∷ bar_at 2 "e2" 90 ∷ bar_at 3 "e3" 110 ∷ []

abbrev pub reference : ReferenceEngine
reference = record { initial_cash = of_nat 1000; fee_rate = of_nat 0; slippage_bps = of_nat 5 }

abbrev pub clock : Clock
clock = record { started_at = 10; finished_at = 11; completed_at = 12 }

abbrev buy_limit : Action
buy_limit = submit_order (record {
  client_order_id = "mine";
  instrument_id = "ABC";
  side = Side.buy;
  order_type = OrderType.limit;
  quantity = of_nat 2;
  limit_price = some (of_nat 95);
  stop_price = none;
  time_in_force = TimeInForce.gtc;
  reason_code = "dip";
})

abbrev go_flat : Action
go_flat =
    target_position (record { instrument_id = "ABC"; quantity = of_nat 0; reason_code = "flat" })

-- a limit order first, then its close, then nothing
abbrev decide : ℕ → List Action
decide zero = buy_limit ∷ []
decide (suc zero) = go_flat ∷ []
decide _ = go_flat ∷ []

abbrev pub crossing : RuntimeStrategy
crossing = record {
  Memory = ℕ;
  manifest = manifest;
  on_start = λ seen. ok seen;
  on_event = λ event account seen. ok (decide seen, suc seen);
  on_finish = λ seen. ok seen;
}
