-- ===== src/Strategies/Microprice.antt =====
-- src/psrc/strategies/rule.py: `L1MicropriceStrategy`.
use strategy_adapter.Prelude.{
  ℕ, ◌+◌, List, [], ◌∷◌, none, some, ok, raised, ◌>>=◌, labelled, if◌then◌else◌,
}
use strategy_adapter.Decimal.{Decimal, of_nat, ◌+ᵈ◌, ◌-ᵈ◌, ◌*ᵈ◌, divide?, is_zero, abs, lt?}
use strategy_adapter.Contract.Errors.{Call, python, arithmetic_error}
use strategy_adapter.Contract.Models.{
  StrategyManifest, StrategyKind, TrainingMode, ActionKind, DataKind,
}
use strategy_adapter.Domain.Market.{MarketEvent, MarketPayload, quote_l1, QuoteL1Payload}
use strategy_adapter.Domain.Actions.{Action, SubmitOrder, Side, OrderType, TimeInForce}
use strategy_adapter.Runtime.Strategy.{RuntimeStrategy}
use strategy_adapter.Strategies.Common.{make_manifest, event_requirement, wait}
use strategy_adapter.Strategies.Twap.{submit}

unfoldable pub micro_manifest : StrategyManifest
micro_manifest =
    make_manifest "rule.l1_microprice" StrategyKind.rule "psrc.strategies.rule:L1MicropriceStrategy"
      ("event.l1.v1" ∷ "execution.basic.v1" ∷ [])
      (event_requirement "quotes" DataKind.quote_l1 ("SYNTH.L1" ∷ [])
          ("bid_price" ∷ "bid_size" ∷ "ask_price" ∷ "ask_size" ∷ []) none
        ∷ [])
      (ActionKind.no_op ∷ ActionKind.submit_order ∷ []) TrainingMode.not_required (some (of_nat 10))
      (some (of_nat 1))

-- `a / b`, where a zero divisor raises
abbrev pub divide : Decimal → Decimal → Call Decimal
divide a b = elim (divide? a b) [ none ↦ raised (python arithmetic_error) | some q ↦ ok q ]

-- `displacement_bps`, from the sizes' sum
unfoldable pub displacement : QuoteL1Payload → Decimal → Call Decimal
displacement quote total = do
  mid ← divide (quote.bid_price +ᵈ quote.ask_price) (of_nat 2)
  microprice ← divide (quote.ask_price *ᵈ quote.bid_size +ᵈ quote.bid_price *ᵈ quote.ask_size) total
  relative ← divide (microprice -ᵈ mid) mid
  ok (relative *ᵈ of_nat 10000)

abbrev pub micro_order : MarketEvent → Decimal → ℕ → SubmitOrder
micro_order event bps counter = record {
  client_order_id = labelled "micro" counter;
  instrument_id = event.instrument_id;
  side = if lt? (of_nat 0) bps then Side.buy else Side.sell;
  order_type = OrderType.market;
  quantity = of_nat 1;
  limit_price = none;
  stop_price = none;
  time_in_force = TimeInForce.day;
  reason_code = "signal.microprice";
}

-- `self.threshold_bps`
module _ (threshold_bps : Decimal) where
  unfoldable pub micro_signal : MarketEvent → Decimal → ℕ → Call (List Action × ℕ)
  micro_signal event bps counter =
      if lt? (abs bps) threshold_bps
      then ok (wait "signal.weak_microprice" "below threshold", counter)
      else (submit (micro_order event bps (counter + 1)) >>= λ order. ok (order ∷ [], counter + 1))

  unfoldable pub micro_quote : MarketEvent → QuoteL1Payload → ℕ → Call (List Action × ℕ)
  micro_quote event quote counter =
      let total = quote.bid_size +ᵈ quote.ask_size in
      if is_zero total
      then ok (wait "quote.empty_sizes" "microprice is undefined", counter)
      else (displacement quote total >>= λ bps. micro_signal event bps counter)

  unfoldable pub micro_payload : MarketPayload → MarketEvent → ℕ → Call (List Action × ℕ)
  micro_payload (quote_l1 quote) event counter = micro_quote event quote counter
  micro_payload _ event counter = ok (wait "event.not_l1" "requires L1 quote", counter)

  -- The memory is `counter`.
  abbrev pub l1_microprice : RuntimeStrategy
  l1_microprice = record {
    Memory = ℕ;
    manifest = micro_manifest;
    on_start = λ counter. ok 0;
    on_event = λ event account counter. micro_payload event.payload event counter;
    on_finish = λ counter. ok counter;
  }
