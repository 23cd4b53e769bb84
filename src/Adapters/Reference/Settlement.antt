-- ===== src/Adapters/Reference/Settlement.antt =====
-- src/psrc/adapters/reference.py: the accounts of a run, and how an event settles the pending
-- orders of its instrument (`_resolve_fill`, `_update_position`, `_settle_pending`).
use strategy_adapter.Prelude.{
  ◌+◌, String, not, ◌||◌, Option, none, some, List, [], ◌∷◌, ◌++◌, length, ok, raised, ◌>>=◌,
  labelled, ◌!=◌, string_eq, if◌then◌else◌,
}
use strategy_adapter.Prelude.Dict.{Dict, get_or, insert}
use strategy_adapter.Decimal.{
  Decimal, of_nat, of_neg, ◌+ᵈ◌, ◌-ᵈ◌, ◌*ᵈ◌, neg, abs, quotient, is_zero, lt?, min_of,
}
use strategy_adapter.Contract.Errors.{Call, python, value_error, assertion_error}
use strategy_adapter.Domain.Market.{Timestamp, MarketEvent}
use strategy_adapter.Domain.Actions.{Side, buy, sell}
use strategy_adapter.Domain.Account.{PendingType, Fill, validate_fill}
use strategy_adapter.Runtime.Report.{OrderEventRecord, OrderStatus}
use strategy_adapter.Adapters.Reference.Prices.{
  by_side, market_price, limit_fill_price, apply_slippage,
}

-- the configuration of a `ReferenceEngine`
pub record ReferenceEngine : Type 0 where
  pub initial_cash : Decimal
  pub fee_rate : Decimal
  pub slippage_bps : Decimal

-- `ReferenceEngine(...)`
unfoldable pub create : Decimal → Decimal → Decimal → Call ReferenceEngine
create initial_cash fee_rate slippage_bps =
    if not (lt? (of_nat 0) initial_cash)
    then raised (python value_error)
    else if lt? fee_rate (of_nat 0) || lt? slippage_bps (of_nat 0)
    then raised (python value_error)
    else ok
        (record { initial_cash = initial_cash; fee_rate = fee_rate; slippage_bps = slippage_bps })

-- `_PendingOrder`
pub record PendingOrder : Type 0 where
  pub client_order_id : String
  pub instrument_id : String
  pub order_type : PendingType
  pub submitted_at : Timestamp
  pub side : Option Side
  pub quantity : Option Decimal
  pub target_quantity : Option Decimal
  pub limit_price : Option Decimal

-- The cash and, by instrument, the position, its average price and the profit taken.
pub record Accounts : Type 0 where
  pub cash : Decimal
  pub quantities : Dict Decimal
  pub average_prices : Dict Decimal
  pub realized_pnl : Dict Decimal

-- `_update_position`
unfoldable pub update_position : String → Decimal → Decimal → Accounts → Accounts
update_position instrument_id delta price a =
    let old_quantity = get_or instrument_id (of_nat 0) a.quantities in
    let old_average = get_or instrument_id (of_nat 0) a.average_prices in
    let new_quantity = old_quantity +ᵈ delta in
    let realized = get_or instrument_id (of_nat 0) a.realized_pnl in
    let opening = is_zero old_quantity || lt? (of_nat 0) (old_quantity *ᵈ delta) in
    let gross = (abs old_quantity *ᵈ old_average) +ᵈ (abs delta *ᵈ price) in
    let closing = min_of (abs old_quantity) (abs delta) in
    let direction = if lt? (of_nat 0) old_quantity then of_nat 1 else of_neg 1 in
    let average_prices =
      if opening
      then insert instrument_id
          (if is_zero new_quantity then of_nat 0 else quotient gross (abs new_quantity))
          a.average_prices
      else if is_zero new_quantity
      then insert instrument_id (of_nat 0) a.average_prices
      else if lt? (old_quantity *ᵈ new_quantity) (of_nat 0)
      then insert instrument_id price a.average_prices
      else a.average_prices in
    let realized_pnl =
      if opening
      then a.realized_pnl
      else insert instrument_id (realized +ᵈ (closing *ᵈ (price -ᵈ old_average)) *ᵈ direction)
          a.realized_pnl in
    record a {
      quantities = insert instrument_id new_quantity a.quantities;
      average_prices = average_prices;
      realized_pnl = realized_pnl;
    }

-- What an event does to an order of its instrument.
pub data Resolution : Type 0 where
  waiting satisfied : Resolution
  filled : Side → Decimal → Decimal → Resolution

-- `_resolve_fill`; the assertions of the source raise
unfoldable pub resolve_target : PendingOrder → MarketEvent → Dict Decimal → Call Resolution
resolve_target order event quantities = elim order.target_quantity [
  | none ↦ raised (python assertion_error)
  | some target ↦
      let delta = target -ᵈ get_or order.instrument_id (of_nat 0) quantities in
      let side = if lt? (of_nat 0) delta then buy else sell in
      if is_zero delta
      then ok satisfied
      else ok (filled side (abs delta) (market_price event.payload side))
]

unfoldable pub resolve_limit : Side → Decimal → Option Decimal → MarketEvent → Call Resolution
resolve_limit side quantity none event = raised (python assertion_error)
resolve_limit side quantity (some limit) event = elim (limit_fill_price event.payload side limit) [
  | none ↦ ok waiting
  | some price ↦ ok (filled side quantity price)
]

unfoldable pub resolve_direct :
    PendingType → Option Side → Option Decimal → Option Decimal → MarketEvent → Call Resolution
unfolding resolve_limit
resolve_direct PendingType.market (some side) (some quantity) limit event =
    ok (filled side quantity (market_price event.payload side))
resolve_direct PendingType.limit (some side) (some quantity) limit event =
    resolve_limit side quantity limit event
resolve_direct _ _ _ limit event = raised (python assertion_error)

unfoldable pub resolve_by :
    PendingType → PendingOrder → MarketEvent → Dict Decimal → Call Resolution
unfolding resolve_target resolve_direct
resolve_by PendingType.target order event quantities = resolve_target order event quantities
resolve_by PendingType.market order event quantities =
    resolve_direct PendingType.market order.side order.quantity order.limit_price event
resolve_by PendingType.limit order event quantities =
    resolve_direct PendingType.limit order.side order.quantity order.limit_price event

abbrev pub resolve_fill : PendingOrder → MarketEvent → Dict Decimal → Call Resolution
resolve_fill order event quantities = resolve_by order.order_type order event quantities

-- The lists that one pass over the pending orders extends.
pub record Settlement : Type 0 where
  pub accounts : Accounts
  pub remaining : List PendingOrder
  pub fills : List Fill
  pub order_events : List OrderEventRecord

-- `order_events.append(OrderEventRecord(sequence=len(order_events), ...))`
abbrev pub note :
    String → String → Timestamp → OrderStatus → List OrderEventRecord → List OrderEventRecord
note client_order_id instrument_id time status events =
    events
    ++ record {
      sequence = length events;
      client_order_id = client_order_id;
      instrument_id = instrument_id;
      event_time = time;
      status = status;
    }
      ∷ []

-- the cash that a fill brings in, before the fee
abbrev pub proceeds : Side → Decimal → Decimal → Decimal
proceeds side quantity price = by_side side (neg quantity *ᵈ price) (quantity *ᵈ price)

-- cash and position after a fill
unfoldable pub book_fill : Side → Decimal → Decimal → Decimal → String → Accounts → Accounts
book_fill side quantity price fee instrument_id a =
    update_position instrument_id (by_side side quantity (neg quantity)) price
      (record a { cash = a.cash +ᵈ (proceeds side quantity price -ᵈ fee) })

-- slippage is paid by all but limit orders
abbrev pub fill_price : ReferenceEngine → PendingType → Side → Decimal → Decimal
fill_price engine PendingType.limit side raw_price = raw_price
fill_price engine _ side raw_price = apply_slippage engine.slippage_bps raw_price side

-- the fill of an order, its record and its booking
unfoldable pub settle_filled :
    ReferenceEngine
    → MarketEvent
    → PendingOrder
    → Side
    → Decimal
    → Decimal
    → Settlement
    → Call Settlement
settle_filled engine event order side quantity raw_price s =
    let price = fill_price engine order.order_type side raw_price in
    let fee = (quantity *ᵈ price) *ᵈ engine.fee_rate in
    let fill : Fill = record {
      fill_id = labelled "fill" (length s.fills + 1);
      client_order_id = order.client_order_id;
      instrument_id = order.instrument_id;
      timestamp = event.available_time;
      side = side;
      quantity = quantity;
      price = price;
      fee = fee;
    } in
    if not (validate_fill fill)
    then raised (python value_error)
    else ok (record {
      accounts = book_fill side quantity price fee order.instrument_id s.accounts;
      remaining = s.remaining;
      fills = s.fills ++ fill ∷ [];
      order_events =
          note order.client_order_id order.instrument_id event.available_time OrderStatus.filled
            s.order_events;
    })

unfoldable pub settle_resolved :
    ReferenceEngine → MarketEvent → PendingOrder → Resolution → Settlement → Call Settlement
settle_resolved engine event order waiting s =
    ok (record s { remaining = s.remaining ++ order ∷ [] })
settle_resolved engine event order satisfied s = ok (record s {
  order_events =
      note order.client_order_id order.instrument_id event.available_time OrderStatus.satisfied
        s.order_events;
})
settle_resolved engine event order (filled side quantity price) s =
    settle_filled engine event order side quantity price s

-- the body of the loop of `_settle_pending`
unfoldable pub settle_order :
    ReferenceEngine → MarketEvent → PendingOrder → Settlement → Call Settlement
settle_order engine event order s =
    if order.instrument_id != event.instrument_id
    then ok (record s { remaining = s.remaining ++ order ∷ [] })
    else do
      resolved ← resolve_fill order event s.accounts.quantities
      settle_resolved engine event order resolved s

-- `_settle_pending`
unfoldable pub settle_pending :
    ReferenceEngine → MarketEvent → List PendingOrder → Settlement → Call Settlement
settle_pending engine event [] s = ok s
settle_pending engine event (order ∷ pending) s =
    settle_order engine event order s >>= λ t. settle_pending engine event pending t
