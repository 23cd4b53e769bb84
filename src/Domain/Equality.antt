-- ===== src/Domain/Equality.antt =====
-- src/psrc/domain/market.py: `==` of two events, field by field; two amounts are equal as values.
use strategy_adapter.Prelude.{
  Bool, true, false, ◌&&◌, List, [], ◌∷◌, ◌==◌, string_eq, option_eq, nat_eq, nat_beq, eq_self, ◌≡◌,
  refl,
}
use strategy_adapter.Decimal.{Decimal, eq?}
use strategy_adapter.Decimal.Order.{le?-refl}
use strategy_adapter.Domain.Market.{
  BarPayload, TradePayload, QuoteL1Payload, BookLevel, MarketPayload, bar, trade, quote_l1,
  book_snapshot_l2, MarketEvent, AggressorSide, bids, asks,
}

abbrev bar_beq : BarPayload → BarPayload → Bool
bar_beq a b =
    eq? a.open_price b.open_price
    && eq? a.high b.high
    && eq? a.low b.low
    && eq? a.close b.close
    && eq? a.volume b.volume

abbrev aggressor_beq : AggressorSide → AggressorSide → Bool
aggressor_beq AggressorSide.buy AggressorSide.buy = true
aggressor_beq AggressorSide.sell AggressorSide.sell = true
aggressor_beq AggressorSide.unknown AggressorSide.unknown = true
aggressor_beq _ _ = false

abbrev trade_beq : TradePayload → TradePayload → Bool
trade_beq a b =
    eq? a.price b.price
    && eq? a.size b.size
    && aggressor_beq a.aggressor_side b.aggressor_side
    && a.trade_id == b.trade_id

abbrev quote_beq : QuoteL1Payload → QuoteL1Payload → Bool
quote_beq a b =
    eq? a.bid_price b.bid_price
    && eq? a.bid_size b.bid_size
    && eq? a.ask_price b.ask_price
    && eq? a.ask_size b.ask_size

abbrev levels_beq : List BookLevel → List BookLevel → Bool
levels_beq [] [] = true
levels_beq (a ∷ more) (b ∷ others) =
    eq? a.price b.price && eq? a.size b.size && levels_beq more others
levels_beq _ _ = false

abbrev payload_beq : MarketPayload → MarketPayload → Bool
payload_beq (bar a) (bar b) = bar_beq a b
payload_beq (trade a) (trade b) = trade_beq a b
payload_beq (quote_l1 a) (quote_l1 b) = quote_beq a b
payload_beq (book_snapshot_l2 a) (book_snapshot_l2 b) =
    levels_beq (bids a) (bids b) && levels_beq (asks a) (asks b)
payload_beq _ _ = false

abbrev event_beq : MarketEvent → MarketEvent → Bool
event_beq a b =
    a.event_id == b.event_id
    && a.instrument_id == b.instrument_id
    && nat_beq a.event_time b.event_time
    && nat_beq a.available_time b.available_time
    && nat_beq a.receive_time b.receive_time
    && nat_beq a.sequence b.sequence
    && a.source == b.source
    && payload_beq a.payload b.payload

-- `events == others`
unfoldable pub events_beq : List MarketEvent → List MarketEvent → Bool
events_beq [] [] = true
events_beq (a ∷ events) (b ∷ others) = event_beq a b && events_beq events others
events_beq _ _ = false

eq?-refl : (a : Decimal) → eq? a a ≡ true
unfolding eq?
eq?-refl a = rw (le?-refl a) refl

levels_beq_self : (ls : List BookLevel) → levels_beq ls ls ≡ true
levels_beq_self [] = refl
levels_beq_self (l ∷ ls) = rw (eq?-refl l.price, eq?-refl l.size) (levels_beq_self ls)

aggressor_beq_self : (s : AggressorSide) → aggressor_beq s s ≡ true
aggressor_beq_self AggressorSide.buy = refl
aggressor_beq_self AggressorSide.sell = refl
aggressor_beq_self AggressorSide.unknown = refl

payload_beq_self : (p : MarketPayload) → payload_beq p p ≡ true
payload_beq_self (bar p) =
    rw (eq?-refl p.open_price, eq?-refl p.high, eq?-refl p.low, eq?-refl p.close, eq?-refl p.volume)
      refl
payload_beq_self (trade p) =
    rw (eq?-refl p.price, eq?-refl p.size, aggressor_beq_self p.aggressor_side, eq_self p.trade_id)
      refl
payload_beq_self (quote_l1 p) =
    rw (eq?-refl p.bid_price, eq?-refl p.bid_size, eq?-refl p.ask_price, eq?-refl p.ask_size) refl
payload_beq_self (book_snapshot_l2 p) = rw (levels_beq_self (bids p), levels_beq_self (asks p)) refl

-- Events are equal to themselves.
pub events_beq_self : (events : List MarketEvent) → events_beq events events ≡ true
unfolding events_beq
events_beq_self [] = refl
events_beq_self (e ∷ events) =
    rw
      (
        eq_self e.event_id,
        eq_self e.instrument_id,
        eq_self e.event_time,
        eq_self e.available_time,
        eq_self e.receive_time,
        eq_self e.sequence,
        eq_self e.source,
        payload_beq_self e.payload,
      )
      (events_beq_self events)
