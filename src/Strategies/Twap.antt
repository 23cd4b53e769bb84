-- ===== src/Strategies/Twap.antt =====
-- src/psrc/strategies/rule.py: `TwapExecutionStrategy`.
pub mod Slices
use strategy_adapter.Prelude.{
  ℕ, suc, ◌+◌, ◌-◌, ◌≤◌, ◌<◌, ◌≡◌, refl, String, Bool, true, false, not, List, [], ◌∷◌, ◌++◌, map,
  All, Option, none, some, ok, raised, ◌>>=◌, leb, ltb, labelled, if◌then◌else◌, count_from, arith,
}
use strategy_adapter.Decimal.{Decimal, of_nat, quotient}
use strategy_adapter.Contract.Errors.{Call, python, value_error}
use strategy_adapter.Contract.Models.{StrategyManifest, StrategyKind, TrainingMode, ActionKind}
use strategy_adapter.Domain.Market.{
  MarketEvent, MarketPayload, bar, trade, quote_l1, book_snapshot_l2,
}
use strategy_adapter.Domain.Account.{AccountSnapshot}
use strategy_adapter.Domain.Actions.{
  Action, submit_order, SubmitOrder, Side, OrderType, TimeInForce, validate_prices,
}
use strategy_adapter.Runtime.Strategy.{RuntimeStrategy}
use strategy_adapter.Strategies.Common.{make_manifest, bar_requirement, wait}

unfoldable pub twap_manifest : StrategyManifest
twap_manifest =
    make_manifest "rule.twap_execution" StrategyKind.rule
      "psrc.strategies.rule:TwapExecutionStrategy" ("core.bar.v1" ∷ "execution.basic.v1" ∷ [])
      (bar_requirement "PT1M" ("SYNTH.TWAP" ∷ []) 1 ∷ [])
      (ActionKind.no_op ∷ ActionKind.submit_order ∷ []) TrainingMode.not_required none
      (some (of_nat 2))

-- `SubmitOrder(...)`, which validates what it makes
abbrev pub submit : SubmitOrder → Call Action
submit order =
    if validate_prices order then ok (submit_order order) else raised (python value_error)

-- the attributes that `__init__` sets once
module _ (total_quantity : Decimal) (slices : ℕ) where
  abbrev pub slice : MarketEvent → ℕ → SubmitOrder
  slice event sent = record {
    client_order_id = labelled "twap" sent;
    instrument_id = event.instrument_id;
    side = Side.buy;
    order_type = OrderType.market;
    quantity = quotient total_quantity (of_nat slices);
    limit_price = none;
    stop_price = none;
    time_in_force = TimeInForce.day;
    reason_code = "execution.twap_slice";
  }

  -- `on_event`, of a bar
  unfoldable pub next_slice : MarketEvent → ℕ → Call (List Action × ℕ)
  next_slice event sent =
      if leb slices sent
      then ok (wait "twap.complete" "parent order completed", sent)
      else (submit (slice event (sent + 1)) >>= λ order. ok (order ∷ [], sent + 1))

  unfoldable pub on_payload : MarketPayload → MarketEvent → ℕ → Call (List Action × ℕ)
  on_payload (bar p) event sent = next_slice event sent
  on_payload _ event sent = ok (wait "event.not_bar" "requires minute bars", sent)

  -- The memory is `sent`.
  abbrev pub twap_execution : RuntimeStrategy
  twap_execution = record {
    Memory = ℕ;
    manifest = twap_manifest;
    on_start = λ sent. ok 0;
    on_event = λ event account sent. on_payload event.payload event sent;
    on_finish = λ sent. ok sent;
  }
