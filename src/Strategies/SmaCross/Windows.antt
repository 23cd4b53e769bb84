-- ===== src/Strategies/SmaCross/Windows.antt =====
-- src/psrc/examples/sma_cross.py: the answers after a history of events.
use strategy_adapter.Prelude.{ℕ, ◌≡◌, refl, List, [], ◌∷◌, ◌++◌, map, append_nil, ok}
use strategy_adapter.Decimal.{Decimal}
use strategy_adapter.Domain.Market.{
  MarketEvent, MarketPayload, bar, trade, quote_l1, book_snapshot_l2, BarPayload,
}
use strategy_adapter.Domain.Account.{AccountSnapshot}
use strategy_adapter.Domain.Actions.{Action}
use strategy_adapter.Strategies.Window.{take_last, append-take_last, take_last-nil}
use strategy_adapter.Strategies.SmaCross.{sma_cross, sma_payload, cross_or_wait}
use strategy_adapter.Strategies.Feeding.{History, feed, bar_of, bars_of, closes_of, map-bars}

module _ (short_window long_window : ℕ) where
  abbrev closing : List Decimal → List BarPayload → List Decimal
  closing before bars = take_last long_window (before ++ map (λ p. p.close) bars)

  sma_step :
      (payload : MarketPayload) (event : MarketEvent) (before : List Decimal)
      → (actions : List Action) × (sma_payload short_window long_window payload event
            (take_last long_window before)
          ≡ ok (actions, closing before (bar_of payload)))
  unfolding sma_payload
  sma_step (bar p) event before = rw (append-take_last long_window before p.close) (_, refl)
  sma_step (trade p) event before = rw (append_nil before) (_, refl)
  sma_step (quote_l1 p) event before = rw (append_nil before) (_, refl)
  sma_step (book_snapshot_l2 p) event before = rw (append_nil before) (_, refl)

  sma_feed :
      (history : History) (before : List Decimal)
      → (answers : List (List Action)) × (feed
            (sma_cross short_window long_window)
            history
            (take_last long_window before)
          ≡ ok (answers, closing before (bars_of history)))
  unfolding feed
  sma_feed [] before = rw (append_nil before) ([], refl)
  sma_feed ((event, account) ∷ history) before =
      let (actions, stepped) = sma_step event.payload event before in
      let (answers, fed) = sma_feed history (before ++ map (λ p. p.close) (bar_of event.payload)) in
      rw (stepped, fed, map-bars (λ p. p.close) before (bar_of event.payload) (bars_of history))
        (_, refl)

  -- After any history, the moving-average strategy answers a bar by the last `long_window` closes
  -- of all the bars so far, that bar included: it waits while they are fewer than the long window,
  -- and else compares the mean of the last `short_window` of them with the mean of all of them.
  pub sma_answers_by_last_closes :
      (history : History) (event : MarketEvent) (account : AccountSnapshot) (p : BarPayload)
      → event.payload ≡ bar p
      → (answers : List (List Action)) × (memory : List Decimal) × (feed
            (sma_cross short_window long_window)
            history
            []
          ≡ ok (answers, memory))
        × (let window = take_last long_window (closes_of history ++ p.close ∷ []) in
            (sma_cross short_window long_window).on_event event account memory
            ≡ ok (cross_or_wait short_window long_window event window, window))
  unfolding sma_payload
  sma_answers_by_last_closes history event account p is_bar =
      let (answers, fed) = sma_feed history [] in
      (
        answers,
        _,
        rw (take_last-nil long_window) at fed,
        rw (is_bar, append-take_last long_window (closes_of history) p.close) refl,
      )
