-- ===== src/Strategies/Maker.antt =====
-- src/psrc/strategies/rule.py: `L2ImbalanceMakerStrategy`.
pub mod Pending
pub mod Quotes
use strategy_adapter.Prelude.{
  ℕ, ◌≡◌, refl, String, string_eq, Bool, true, false, ◌||◌, List, [], ◌∷◌, map, contains, length,
  Option, none, some, ok, raised, ◌>>=◌, ltb, if◌then◌else◌,
}
use strategy_adapter.Decimal.{Decimal, of_nat, ◌+ᵈ◌, ◌-ᵈ◌, sum, max_of, min_of, lt?}
use strategy_adapter.Contract.Errors.{Call, python, value_error}
use strategy_adapter.Contract.Models.{
  StrategyManifest, StrategyKind, TrainingMode, ActionKind, DataKind,
}
use strategy_adapter.Domain.Market.{
  MarketEvent, MarketPayload, bar, trade, quote_l1, book_snapshot_l2, BookSnapshotL2Payload,
  BookLevel, bids, asks,
}
use strategy_adapter.Domain.Account.{AccountSnapshot}
use strategy_adapter.Domain.Actions.{
  Action, replace_order, SubmitOrder, ReplaceOrder, Side, OrderType, TimeInForce, validate_replace,
}
use strategy_adapter.Runtime.Strategy.{RuntimeStrategy}
use strategy_adapter.Strategies.Common.{make_manifest, event_requirement, wait}
use strategy_adapter.Strategies.Twap.{submit}
use strategy_adapter.Strategies.Microprice.{divide}

unfoldable pub maker_manifest : StrategyManifest
maker_manifest =
    make_manifest "rule.l2_imbalance_maker" StrategyKind.rule
      "psrc.strategies.rule:L2ImbalanceMakerStrategy" ("event.l2.v1" ∷ "execution.advanced.v1" ∷ [])
      (event_requirement "book" DataKind.book_snapshot_l2 ("SYNTH.L2" ∷ [])
          ("bids.price" ∷ "bids.size" ∷ "asks.price" ∷ "asks.size" ∷ []) (some 3)
        ∷ [])
      (ActionKind.no_op ∷ ActionKind.submit_order ∷ ActionKind.replace_order ∷ [])
      TrainingMode.not_required (some (of_nat 10)) (some (of_nat 1))

-- `sum(level.size for level in levels)`
abbrev total_size : List BookLevel → Decimal
total_size levels = sum (map (λ l. l.size) levels)

-- `skew`: its divisor is 1 or more
unfoldable pub skew : BookSnapshotL2Payload → Call Decimal
skew book =
    let bid_size = total_size (bids book) in
    let ask_size = total_size (asks book) in
    divide (bid_size -ᵈ ask_size) (max_of (bid_size +ᵈ ask_size) (of_nat 1))

-- `ReplaceOrder(...)`, which validates what it makes
abbrev pub replacement : ReplaceOrder → Call Action
replacement order =
    if validate_replace order then ok (replace_order order) else raised (python value_error)

-- one side's quote: a new order, or a new price for the live one
unfoldable pub quote_side :
    MarketEvent → AccountSnapshot → String → Side → Decimal → String → String → Call Action
quote_side event account client_order_id side price new_reason refresh_reason =
    if contains (map (λ o. o.client_order_id) account.open_orders) client_order_id
    then replacement (record {
      client_order_id = client_order_id;
      new_quantity = none;
      new_limit_price = some price;
      reason_code = refresh_reason;
    })
    else submit (record {
      client_order_id = client_order_id;
      instrument_id = event.instrument_id;
      side = side;
      order_type = OrderType.limit;
      quantity = of_nat 1;
      limit_price = some price;
      stop_price = none;
      time_in_force = TimeInForce.day;
      reason_code = new_reason;
    })

-- both sides' prices, from the two best levels of each
abbrev pub bid_quote : BookLevel → Decimal → Decimal → Decimal
bid_quote best tick s = if lt? s (of_nat 0) then best.price -ᵈ tick else best.price

abbrev pub ask_quote : BookLevel → Decimal → Decimal → Decimal
ask_quote best tick s = if lt? (of_nat 0) s then best.price +ᵈ tick else best.price

abbrev pub tick_of : BookLevel → BookLevel → BookLevel → BookLevel → Decimal
tick_of bid second_bid ask second_ask =
    min_of (second_ask.price -ᵈ ask.price) (bid.price -ᵈ second_bid.price)

unfoldable pub quote_both : MarketEvent → AccountSnapshot → Decimal → Decimal → Call (List Action)
quote_both event account bid_price ask_price = do
  bid ←
      quote_side event account "maker:bid" Side.buy bid_price "quote.inventory_aware_bid"
        "quote.refresh_bid"
  ask ←
      quote_side event account "maker:ask" Side.sell ask_price "quote.inventory_aware_ask"
        "quote.refresh_ask"
  ok (bid ∷ ask ∷ [])

-- the answer to a book, from its levels after the best ones
unfoldable pub quote_book :
    MarketEvent
    → AccountSnapshot
    → BookSnapshotL2Payload
    → List BookLevel
    → List BookLevel
    → Bool
    → Call (List Action × Bool)
quote_book event account book (second_bid ∷ _) (second_ask ∷ _) initialized = do
  s ← skew book
  let tick = tick_of book.best_bid second_bid book.best_ask second_ask
  actions ←
      quote_both event account (bid_quote book.best_bid tick s) (ask_quote book.best_ask tick s)
  ok (actions, true)
quote_book event account book _ _ initialized =
    ok (wait "book.depth_insufficient" "requires depth 2", initialized)

unfoldable pub maker_payload :
    MarketPayload → MarketEvent → AccountSnapshot → Bool → Call (List Action × Bool)
maker_payload (book_snapshot_l2 book) event account initialized =
    quote_book event account book book.more_bids book.more_asks initialized
maker_payload _ event account initialized =
    ok (wait "event.not_l2" "requires L2 snapshot", initialized)

-- The memory is `initialized`.
abbrev pub l2_imbalance_maker : RuntimeStrategy
l2_imbalance_maker = record {
  Memory = Bool;
  manifest = maker_manifest;
  on_start = λ initialized. ok false;
  on_event = λ event account initialized. maker_payload event.payload event account initialized;
  on_finish = λ initialized. ok initialized;
}
