-- ===== src/Tests/Strategies.antt =====
-- The theorems on the repository's strategies, at small histories.
use Prim.Native.Nat.{min}
use strategy_adapter.Prelude.{
  ℕ, true, false, refl, ◌≡◌, List, [], ◌∷◌, map, ok, arith, any, count_from, labelled, length, ◌≤◌,
}
use strategy_adapter.Decimal.{Decimal, of_nat, arithmetic, max_of, min_of}
use strategy_adapter.Domain.Market.{
  MarketEvent, BarPayload, book_snapshot_l2, BookSnapshotL2Payload, BookLevel, positive,
}
use strategy_adapter.Domain.Account.{AccountSnapshot}
use strategy_adapter.Domain.Actions.{Action, Side}
use strategy_adapter.Adapters.Reference.Commands.{Book, handle_actions, has_id}
use strategy_adapter.Strategies.Common.{make_manifest}
use strategy_adapter.Strategies.Window.{take_last}
use strategy_adapter.Strategies.Feeding.{History, feed}
use strategy_adapter.Strategies.Discipline.{IsDisciplined, disciplined_targets_accepted}
use strategy_adapter.Strategies.Answers.{
  sma_cross-IsDisciplined, donchian-IsDisciplined, twap-IsDisciplined, FitsLimit, IsChannel,
}
use strategy_adapter.Strategies.SmaCross.{sma_cross, sma_manifest, cross_or_wait}
use strategy_adapter.Strategies.SmaCross.Windows.{sma_answers_by_last_closes}
use strategy_adapter.Strategies.Donchian.{donchian_breakout, Channel, breakout, extreme}
use strategy_adapter.Strategies.Donchian.Channels.{donchian_answers_by_last_bars}
use strategy_adapter.Strategies.Twap.{twap_execution}
use strategy_adapter.Strategies.Twap.Slices.{twap_sends_each_slice, sent_ids}
use strategy_adapter.Strategies.Maker.{
  l2_imbalance_maker, maker_manifest, skew, tick_of, bid_quote, ask_quote,
}
use strategy_adapter.Strategies.Maker.Quotes.{maker_holds_quotes}
use strategy_adapter.Strategies.Maker.Pending.{Named, IsQuoteAt}
use strategy_adapter.Tests.Data.{plan, bar_at}

abbrev account : AccountSnapshot
account = record {
  timestamp = 1;
  base_currency = "USD";
  cash = of_nat 1000;
  equity = of_nat 1000;
  positions = [];
  open_orders = [];
}

abbrev history : History
history = (bar_at 1 "e1" 100, account) ∷ (bar_at 2 "e2" 90, account) ∷ []

abbrev latest : MarketEvent
latest = bar_at 3 "e3" 110

abbrev price_bar : ℕ → BarPayload
price_bar price = record {
  open_price = of_nat price;
  high = of_nat price;
  low = of_nat price;
  close = of_nat price;
  volume = of_nat 10;
}

abbrev book : Book
book = record { pending = []; order_events = []; order_count = 0; no_op_count = 0 }

sma_cross-IsDisciplined_example :
    (d : IsDisciplined (sma_cross 1 2)) × ((closes : List Decimal)
      → d.Invariant closes
      → length closes ≤ 2)
sma_cross-IsDisciplined_example = sma_cross-IsDisciplined 1 2

donchian-IsDisciplined_example :
    (d : IsDisciplined (donchian_breakout 2)) × ((c : Channel) → d.Invariant c → IsChannel 2 c)
donchian-IsDisciplined_example = donchian-IsDisciplined 2 (omega arith)

fits : FitsLimit (of_nat 8) 4
unfolding arithmetic
fits = (refl, refl)

twap-IsDisciplined_example : IsDisciplined (twap_execution (of_nat 8) 4)
twap-IsDisciplined_example = twap-IsDisciplined (of_nat 8) 4 fits

-- a started strategy at a first bar
abbrev crossing : IsDisciplined (sma_cross 1 2)
crossing = (sma_cross-IsDisciplined 1 2).0

disciplined_targets_accepted_example :
    (actions : List Action) × (memory : List Decimal) × (after : Book) × ((sma_cross 1 2).on_event
        latest account
        (crossing.starts []).0
      ≡ ok (actions, memory))
    × crossing.Invariant memory
    × (handle_actions plan sma_manifest ("ABC" ∷ []) latest account [] actions book ≡ ok after)
unfolding sma_manifest make_manifest
disciplined_targets_accepted_example =
    disciplined_targets_accepted (sma_cross 1 2) crossing plan ("ABC" ∷ []) latest account []
      (crossing.starts []).0 book refl refl (crossing.starts []).2

sma_answers_by_last_closes_example :
    (answers : List (List Action)) × (memory : List Decimal) × (feed (sma_cross 1 2) history []
      ≡ ok (answers, memory))
    × (let window = take_last 2 (of_nat 100 ∷ of_nat 90 ∷ of_nat 110 ∷ []) in
        (sma_cross 1 2).on_event latest account memory
        ≡ ok (cross_or_wait 1 2 latest window, window))
sma_answers_by_last_closes_example =
    sma_answers_by_last_closes 1 2 history latest account (price_bar 110) refl

donchian_answers_by_last_bars_example :
    (answers : List (List Action)) × (memory : Channel) × (upper : Decimal) × (lower : Decimal)
    × (after : Channel) × (feed (donchian_breakout 2) history (record { highs = []; lows = [] })
        ≡ ok (answers, memory))
    × (extreme max_of (take_last 2 (of_nat 100 ∷ of_nat 90 ∷ [])) ≡ ok upper)
    × (extreme min_of (take_last 2 (of_nat 100 ∷ of_nat 90 ∷ [])) ≡ ok lower)
    × ((donchian_breakout 2).on_event latest account memory
        ≡ ok (breakout 2 latest (of_nat 110) upper lower, after))
donchian_answers_by_last_bars_example =
    donchian_answers_by_last_bars 2 history latest account (price_bar 110) refl (omega arith)
      (omega arith)

twap_sends_each_slice_example :
    (answers : List (List Action)) × (sent : ℕ) × (feed (twap_execution (of_nat 8) 4) history 0
      ≡ ok (answers, sent))
    × (sent ≡ min 4 2)
    × (sent_ids (of_nat 8) 4 answers ≡ map (labelled "twap") (count_from 1 sent))
twap_sends_each_slice_example = twap_sends_each_slice (of_nat 8) 4 (fits.0) history

abbrev level : ℕ → ℕ → BookLevel
level price size = record { price = of_nat price; size = of_nat size }

abbrev levels : BookSnapshotL2Payload
levels = record {
  best_bid = level 99 5;
  more_bids = level 98 5 ∷ [];
  best_ask = level 101 2;
  more_asks = level 102 2 ∷ [];
}

abbrev snapshot : MarketEvent
snapshot = record latest { payload = book_snapshot_l2 levels }

skewed : (s : Decimal) × (skew levels ≡ ok s)
unfolding skew arithmetic
skewed = (_, refl)

abbrev levels_tick : Decimal
levels_tick = tick_of (level 99 5) (level 98 5) (level 101 2) (level 102 2)

quotes_positive :
    (positive (bid_quote (level 99 5) levels_tick (skewed.0)) ≡ true)
    × (positive (ask_quote (level 101 2) levels_tick (skewed.0)) ≡ true)
unfolding skewed arithmetic
quotes_positive = (refl, refl)

maker_holds_quotes_example :
    (actions : List Action) × (after : Book) × (l2_imbalance_maker.on_event snapshot account false
      ≡ ok (actions, true))
    × (handle_actions plan maker_manifest ("ABC" ∷ []) snapshot account [] actions book ≡ ok after)
    × (any (has_id "maker:bid") after.pending ≡ true)
    × (any (has_id "maker:ask") after.pending ≡ true)
    × Named "maker:bid"
        (IsQuoteAt "ABC" Side.buy (bid_quote (level 99 5) levels_tick (skewed.0)))
        after.pending
    × Named "maker:ask"
        (IsQuoteAt "ABC" Side.sell (ask_quote (level 101 2) levels_tick (skewed.0)))
        after.pending
maker_holds_quotes_example =
    maker_holds_quotes plan ("ABC" ∷ []) snapshot account [] false book levels (level 98 5)
      (level 102 2) [] [] (skewed.0) refl refl refl (skewed.1) quotes_positive refl refl tt tt
