-- ===== src/Domain/Market.antt =====
-- src/psrc/domain/market.py: the payloads of a market event, the event, and their validators.
-- `Field(gt=0)` and `Field(ge=0)` are part of each validator.
use strategy_adapter.Prelude.{ℕ, String, Bool, true, not, ◌&&◌, Option, List, [], ◌∷◌, ltb, all}
use strategy_adapter.Decimal.{Decimal, of_nat, le?, lt?, max_of, min_of}

abbrev pub Timestamp : Type 0
Timestamp = ℕ

pub record BarPayload : Type 0 where
  pub open_price : Decimal
  pub high : Decimal
  pub low : Decimal
  pub close : Decimal
  pub volume : Decimal

abbrev pub positive : Decimal → Bool
positive d = lt? (of_nat 0) d

abbrev pub nonnegative : Decimal → Bool
nonnegative d = le? (of_nat 0) d

unfoldable pub validate_ohlc : BarPayload → Bool
validate_ohlc b =
    (positive b.open_price && positive b.high && positive b.low && positive b.close)
    && nonnegative b.volume
    && not (lt? b.high (max_of (max_of b.open_price b.close) b.low))
    && not (lt? (min_of (min_of b.open_price b.close) b.high) b.low)

pub data AggressorSide : Type 0 where
  buy sell unknown : AggressorSide

pub record TradePayload : Type 0 where
  pub price : Decimal
  pub size : Decimal
  pub aggressor_side : AggressorSide
  pub trade_id : Option String

unfoldable pub validate_trade : TradePayload → Bool
validate_trade t = positive t.price && positive t.size

pub record QuoteL1Payload : Type 0 where
  pub bid_price : Decimal
  pub bid_size : Decimal
  pub ask_price : Decimal
  pub ask_size : Decimal

unfoldable pub validate_spread : QuoteL1Payload → Bool
validate_spread q =
    (positive q.bid_price && nonnegative q.bid_size)
    && (positive q.ask_price && nonnegative q.ask_size)
    && not (lt? q.ask_price q.bid_price)

pub record BookLevel : Type 0 where
  pub price : Decimal
  pub size : Decimal

-- The two sides of a book, in the order of the feed. A snapshot without a best level on each side
-- is refused by `validate_book`, so the best levels are fields and the tails are lists.
pub record BookSnapshotL2Payload : Type 0 where
  pub best_bid : BookLevel
  pub more_bids : List BookLevel
  pub best_ask : BookLevel
  pub more_asks : List BookLevel

abbrev pub bids : BookSnapshotL2Payload → List BookLevel
bids b = b.best_bid ∷ b.more_bids

abbrev pub asks : BookSnapshotL2Payload → List BookLevel
asks b = b.best_ask ∷ b.more_asks

-- no adjacent pair of prices meets the test
unfoldable pub descending : BookLevel → List BookLevel → Bool
descending x [] = true
descending x (y ∷ ys) = not (le? x.price y.price) && descending y ys

unfoldable pub ascending : BookLevel → List BookLevel → Bool
ascending x [] = true
ascending x (y ∷ ys) = not (le? y.price x.price) && ascending y ys

unfoldable pub validate_level : BookLevel → Bool
validate_level l = positive l.price && nonnegative l.size

unfoldable pub validate_book : BookSnapshotL2Payload → Bool
validate_book b =
    all validate_level (bids b)
    && all validate_level (asks b)
    && descending b.best_bid b.more_bids
    && ascending b.best_ask b.more_asks
    && not (lt? b.best_ask.price b.best_bid.price)

pub data MarketPayload : Type 0 where
  bar : BarPayload → MarketPayload
  trade : TradePayload → MarketPayload
  quote_l1 : QuoteL1Payload → MarketPayload
  book_snapshot_l2 : BookSnapshotL2Payload → MarketPayload

pub record MarketEvent : Type 0 where
  pub event_id : String
  pub instrument_id : String
  pub event_time : Timestamp
  pub available_time : Timestamp
  pub receive_time : Timestamp
  pub sequence : ℕ
  pub source : String
  pub payload : MarketPayload

unfoldable pub validate_payload : MarketPayload → Bool
validate_payload (bar b) = validate_ohlc b
validate_payload (trade t) = validate_trade t
validate_payload (quote_l1 q) = validate_spread q
validate_payload (book_snapshot_l2 b) = validate_book b

-- `validate_times`; a naive timestamp cannot be written in the model
unfoldable pub validate_times : MarketEvent → Bool
validate_times e =
    not (ltb e.available_time e.event_time) && not (ltb e.receive_time e.available_time)

unfoldable pub validate_event : MarketEvent → Bool
validate_event e = validate_payload e.payload && validate_times e
