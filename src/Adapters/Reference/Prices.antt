-- ===== src/Adapters/Reference/Prices.antt =====
-- src/psrc/adapters/reference.py: the price at which an event marks an instrument, at which it
-- fills a market order, and at which it fills a limit order, if it does.
use strategy_adapter.Prelude.{Bool, Option, none, some, if◌then◌else◌}
use strategy_adapter.Decimal.{Decimal, of_nat, ◌+ᵈ◌, ◌-ᵈ◌, ◌*ᵈ◌, quotient, le?}
use strategy_adapter.Domain.Market.{MarketPayload, bar, trade, quote_l1, book_snapshot_l2}
use strategy_adapter.Domain.Actions.{Side, buy, sell}

-- `_mark`
unfoldable pub mark_price : MarketPayload → Decimal
mark_price (bar p) = p.close
mark_price (trade p) = p.price
mark_price (quote_l1 p) = quotient (p.bid_price +ᵈ p.ask_price) (of_nat 2)
mark_price (book_snapshot_l2 p) = quotient (p.best_bid.price +ᵈ p.best_ask.price) (of_nat 2)

abbrev pub by_side {ℓ} : {A : Type ℓ} → Side → A → A → A
by_side buy a b = a
by_side sell a b = b

-- `_market_price`
unfoldable pub market_price : MarketPayload → Side → Decimal
market_price (bar p) side = p.open_price
market_price (trade p) side = p.price
market_price (quote_l1 p) side = by_side side p.ask_price p.bid_price
market_price (book_snapshot_l2 p) side = by_side side p.best_ask.price p.best_bid.price

-- `price if marketable else None`
abbrev when : Bool → Decimal → Option Decimal
when touched price = if touched then some price else none

-- `_limit_fill_price`
unfoldable pub limit_fill_price : MarketPayload → Side → Decimal → Option Decimal
limit_fill_price (bar p) side limit = when (by_side side (le? p.low limit) (le? limit p.high)) limit
limit_fill_price (trade p) side limit =
    when (by_side side (le? p.price limit) (le? limit p.price)) p.price
limit_fill_price (quote_l1 p) side limit =
    let market = market_price (quote_l1 p) side in
    when (by_side side (le? market limit) (le? limit market)) market
limit_fill_price (book_snapshot_l2 p) side limit =
    let market = market_price (book_snapshot_l2 p) side in
    when (by_side side (le? market limit) (le? limit market)) market

-- `_apply_slippage`
unfoldable pub apply_slippage : Decimal → Decimal → Side → Decimal
apply_slippage slippage_bps raw_price side =
    let slip = quotient slippage_bps (of_nat 10000) in
    raw_price *ᵈ by_side side (of_nat 1 +ᵈ slip) (of_nat 1 -ᵈ slip)
