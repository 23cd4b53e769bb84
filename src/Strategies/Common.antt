-- ===== src/Strategies/Common.antt =====
-- src/psrc/strategies/common.py: the declarations of the repository's strategies; and the actions
-- that do nothing.
use strategy_adapter.Prelude.{ℕ, String, Bool, Option, none, some, List, [], ◌∷◌, ◌!=◌}
use strategy_adapter.Decimal.{Decimal}
use strategy_adapter.Contract.Models.{
  StrategyManifest, DataRequirement, Timeframe, StrategyKind, TrainingMode, TimeframeMode, DataKind,
  ActionKind, SandboxMode, NetworkMode, FilesystemMode, strategy_kind_eq,
}
use strategy_adapter.Domain.Actions.{Action, no_op}

unfoldable pub make_manifest :
    String
    → StrategyKind
    → String
    → List String
    → List DataRequirement
    → List ActionKind
    → TrainingMode
    → Option Decimal
    → Option Decimal
    → StrategyManifest
make_manifest strategy_id kind entrypoint profiles data' actions training max_position max_order =
    record {
      contract_version = "1.1.0";
      strategy_id = strategy_id;
      strategy_version = "1.0.0";
      kind = kind;
      entrypoint = entrypoint;
      required_profiles = profiles;
      lifecycle = record { training = training; state_checkpointing = kind != StrategyKind.rule };
      data_requirements = data';
      action_requirements = record {
        allowed = actions;
        max_abs_position = max_position;
        max_order_quantity = max_order;
      };
      resources = record {
        sandbox = SandboxMode.development;
        network = NetworkMode.deny;
        filesystem = FilesystemMode.artifact_store_only;
        allowed_imports = "math" ∷ "statistics" ∷ "numpy" ∷ [];
        timeout_seconds = 60;
        memory_mb = 512;
        process_limit = 32;
      };
      deterministic = Bool.true;
      seed = 7;
    }

-- a timeframe of events, or of bars of an interval
abbrev timeframe : TimeframeMode → Option String → Timeframe
timeframe mode interval = record {
  mode = mode;
  interval = interval;
  timezone = "UTC";
  calendar = "24/7";
  alignment = "epoch";
}

abbrev pub bar_fields : List String
bar_fields = "open" ∷ "high" ∷ "low" ∷ "close" ∷ "volume" ∷ []

-- `bar_requirement`, under the stream's default name
unfoldable pub bar_requirement : String → List String → ℕ → DataRequirement
bar_requirement interval symbols lookback = record {
  stream_id = "bars";
  kind = DataKind.bar;
  timeframe = timeframe TimeframeMode.bar (some interval);
  symbols = symbols;
  required_fields = bar_fields;
  optional_fields = [];
  lookback = lookback;
  depth = none;
  max_staleness_ns = none;
}

unfoldable pub event_requirement :
    String → DataKind → List String → List String → Option ℕ → DataRequirement
event_requirement stream_id kind symbols fields depth = record {
  stream_id = stream_id;
  kind = kind;
  timeframe = timeframe TimeframeMode.event none;
  symbols = symbols;
  required_fields = fields;
  optional_fields = [];
  lookback = 1;
  depth = depth;
  max_staleness_ns = none;
}

-- the one action of an event on which nothing is done
abbrev pub wait : String → String → List Action
wait reason_code explanation =
    no_op (record { reason_code = reason_code; explanation = explanation }) ∷ []
