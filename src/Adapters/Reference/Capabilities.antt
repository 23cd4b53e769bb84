-- ===== src/Adapters/Reference/Capabilities.antt =====
-- src/psrc/adapters/reference.py: `capabilities`, what the engine declares of itself.
pub mod Contained
use strategy_adapter.Prelude.{Bool, true, false, List, [], ◌∷◌, none, some, if◌then◌else◌}
use strategy_adapter.Contract.Models.{
  EngineCapabilities, SandboxMode, SupportLevel, DataKind, ActionKind, ReplaceSupport,
}

unfoldable pub capabilities : Bool → EngineCapabilities
capabilities strict_container = record {
  contract_version = "1.1.0";
  engine_id = "reference";
  engine_version = "0.2.0";
  adapter_version = "0.2.0";
  support_level = SupportLevel.conformance_verified;
  profiles =
      "core.bar.v1" ∷ "event.trade.v1" ∷ "event.l1.v1" ∷ "event.l2.v1" ∷ "execution.basic.v1"
      ∷ "execution.advanced.v1" ∷ "portfolio.batch.v1" ∷ "training.supervised.v1" ∷ "training.rl.v1"
      ∷ [];
  data_kinds = DataKind.bar ∷ DataKind.trade ∷ DataKind.quote_l1 ∷ DataKind.book_snapshot_l2 ∷ [];
  action_kinds =
      ActionKind.no_op ∷ ActionKind.prediction ∷ ActionKind.target_position
      ∷ ActionKind.target_weight ∷ ActionKind.submit_order ∷ ActionKind.cancel_order
      ∷ ActionKind.replace_order ∷ [];
  execution = record {
    partial_fills = false;
    cancel = true;
    replace = ReplaceSupport.native;
    same_timestamp_ordering = "existing_orders_then_market_then_strategy_then_new_commands";
    queue_model = some "none-full-fill-only.v1";
    fill_model = "reference.next-event.v2";
    fee_model = "proportional.v1";
    slippage_model = "fixed-bps-market-only.v1";
    latency_model = "next-event.v1";
  };
  sandbox_modes =
      if strict_container
      then SandboxMode.development ∷ SandboxMode.strict_container ∷ []
      else SandboxMode.development ∷ [];
}
