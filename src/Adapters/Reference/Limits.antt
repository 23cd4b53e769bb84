-- ===== src/Adapters/Reference/Limits.antt =====
-- src/psrc/adapters/reference.py: at which price the engine fills a limit order.
use strategy_adapter.Prelude.{
  ◌≡◌, refl, true, Option, none, some, ok, arith, Option-cases, inl, inr, ok-injective, subst,
}
use strategy_adapter.Prelude.Dict.{Dict}
use strategy_adapter.Decimal.{Decimal, le?}
use strategy_adapter.Decimal.Order.{le?-refl}
use strategy_adapter.Domain.Market.{
  MarketPayload, MarketEvent, bar, trade, quote_l1, book_snapshot_l2,
}
use strategy_adapter.Domain.Actions.{Side, buy, sell}
use strategy_adapter.Domain.Account.{PendingType}
use strategy_adapter.Adapters.Reference.Prices.{limit_fill_price}
use strategy_adapter.Adapters.Reference.Settlement.{
  ReferenceEngine, PendingOrder, Resolution, filled, resolve_limit, resolve_direct, resolve_by,
  resolve_fill, fill_price,
}

-- a buyer pays at most the limit, a seller gets at least the limit
abbrev pub IsProtected : Side → Decimal → Decimal → Type 0
IsProtected buy price limit = le? price limit ≡ true
IsProtected sell price limit = le? limit price ≡ true

limit_fill_price-IsProtected :
    (payload : MarketPayload) (side : Side) (limit : Decimal) {price : Decimal}
    → limit_fill_price payload side limit ≡ some price
    → IsProtected side price limit
unfolding limit_fill_price
limit_fill_price-IsProtected (bar p) buy limit h = ground (arith, le?-refl limit)
limit_fill_price-IsProtected (bar p) sell limit h = ground (arith, le?-refl limit)
limit_fill_price-IsProtected (trade p) buy limit h = ground arith
limit_fill_price-IsProtected (trade p) sell limit h = ground arith
limit_fill_price-IsProtected (quote_l1 p) buy limit h = ground arith
limit_fill_price-IsProtected (quote_l1 p) sell limit h = ground arith
limit_fill_price-IsProtected (book_snapshot_l2 p) buy limit h = ground arith
limit_fill_price-IsProtected (book_snapshot_l2 p) sell limit h = ground arith

-- What a filled limit order was given: its own side, its own quantity, and a price that its limit
-- allows.
pub record IsLimitFill (side' : Option Side) (quantity' limit' : Option Decimal) (side : Side)
    (quantity price : Decimal) : Type 0 where
  pub same_side : side' ≡ some side
  pub same_quantity : quantity' ≡ some quantity
  pub limit : Decimal
  pub limited : limit' ≡ some limit
  pub within : IsProtected side price limit

-- the same of whatever an order is resolved to
abbrev IsLimitResolution : Option Side → Option Decimal → Option Decimal → Resolution → Type 0
IsLimitResolution side' quantity' limit' (filled side quantity price) =
    IsLimitFill side' quantity' limit' side quantity price
IsLimitResolution side' quantity' limit' _ = Unit

resolve_direct-IsLimitFill :
    (side' : Option Side) (quantity' limit' : Option Decimal) (event : MarketEvent) {side : Side}
    {quantity price : Decimal}
    → resolve_direct PendingType.limit side' quantity' limit' event
      ≡ ok (filled side quantity price)
    → IsLimitFill side' quantity' limit' side quantity price
unfolding resolve_direct resolve_limit
resolve_direct-IsLimitFill none q l event h = cc
resolve_direct-IsLimitFill (some s) none l event h = cc
resolve_direct-IsLimitFill (some s) (some q) none event h = cc
resolve_direct-IsLimitFill (some s) (some q) (some l) event h =
    elim (Option-cases (limit_fill_price event.payload s l)) [
      | inl absent ↦ let f = rw (absent, resolve_direct, resolve_limit) at h in cc
      | inr (p, found) ↦
          subst (IsLimitResolution (some s) (some q) (some l))
            (ok-injective (rw (found, resolve_direct, resolve_limit) at h))
            (record {
              same_side = refl;
              same_quantity = refl;
              limit = l;
              limited = refl;
              within = limit_fill_price-IsProtected event.payload s l found;
            })
    ]

-- When a limit order is filled, the fill has the order's own side and quantity, and the price it is
-- booked at is within the limit of the order: a buyer pays at most the limit, a seller gets at
-- least the limit, whatever the slippage of the engine.
pub limit_order_protected :
    (engine : ReferenceEngine) (order : PendingOrder) (event : MarketEvent)
    (quantities : Dict Decimal) (side : Side) (quantity raw_price : Decimal)
    → order.order_type ≡ PendingType.limit
    → resolve_fill order event quantities ≡ ok (filled side quantity raw_price)
    → IsLimitFill order.side order.quantity order.limit_price side quantity
        (fill_price engine order.order_type side raw_price)
unfolding resolve_by
limit_order_protected engine order event quantities side quantity raw_price kind h = rw kind (
    resolve_direct-IsLimitFill order.side order.quantity order.limit_price event
      (rw (kind, resolve_by) at h))
