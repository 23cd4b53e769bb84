-- ===== src/Strategies/Donchian/Channels.antt =====
-- src/psrc/strategies/rule.py: the answers of `DonchianBreakoutStrategy` after a history of events.
use strategy_adapter.Prelude.{
  ℕ, ◌-◌, ◌≤◌, ◌≡◌, refl, sym, ap, ◌∙◌, false, List, [], ◌∷◌, ◌++◌, map, append_nil, length, ok,
  ltb, Bool-cases, inl, inr, arith,
}
use strategy_adapter.Decimal.{Decimal, max_of, min_of}
use strategy_adapter.Domain.Market.{
  MarketEvent, MarketPayload, bar, trade, quote_l1, book_snapshot_l2, BarPayload,
}
use strategy_adapter.Domain.Account.{AccountSnapshot}
use strategy_adapter.Domain.Actions.{Action}
use strategy_adapter.Strategies.Window.{
  take_last, append-take_last, take_last-nil, length-take_last, length-drop,
}
use strategy_adapter.Strategies.Donchian.{
  Channel, donchian_breakout, donchian_payload, donchian_bar, breakout, extreme, widen,
}
use strategy_adapter.Strategies.Answers.{extreme-ok}
use strategy_adapter.Strategies.Feeding.{
  History, feed, bar_of, bars_of, append_assoc, map-append, length-map,
}

module _ (lookback : ℕ) where
  -- the channel of the last bars
  abbrev pub channel : List BarPayload → Channel
  channel bars = record {
    highs = take_last lookback (map (λ p. p.high) bars);
    lows = take_last lookback (map (λ p. p.low) bars);
  }

  channel-widen :
      (p : BarPayload) (bars : List BarPayload)
      → widen lookback p (channel bars) ≡ channel (bars ++ p ∷ [])
  channel-widen p bars = λ i. record {
    highs =
        (append-take_last lookback (map (λ p. p.high) bars) p.high
            ∙ ap (take_last lookback) (sym (map-append (λ p. p.high) bars (p ∷ []))))
          i;
    lows =
        (append-take_last lookback (map (λ p. p.low) bars) p.low
            ∙ ap (take_last lookback) (sym (map-append (λ p. p.low) bars (p ∷ []))))
          i;
  }

  equally_many : (bars : List BarPayload) → length (channel bars).highs ≡ length (channel bars).lows
  unfolding take_last
  equally_many bars = omega (
    arith,
    length-drop (length (map (λ p. p.high) bars) - lookback) (map (λ p. p.high) bars),
    length-drop (length (map (λ p. p.low) bars) - lookback) (map (λ p. p.low) bars),
    length-map (λ p. p.high) bars,
    length-map (λ p. p.low) bars,
  )

  -- Once the bars are as many as the lookback, the channel is complete.
  donchian_complete :
      (event : MarketEvent) (p : BarPayload) (bars : List BarPayload)
      → 1 ≤ lookback
      → lookback ≤ length bars
      → (upper : Decimal) × (lower : Decimal) × (extreme max_of (channel bars).highs ≡ ok upper)
        × (extreme min_of (channel bars).lows ≡ ok lower)
        × (donchian_bar lookback event p (channel bars)
            ≡ ok (breakout lookback event p.close upper lower, channel (bars ++ p ∷ [])))
  unfolding donchian_bar
  donchian_complete event p bars longer enough =
      let high_count =
        length-take_last lookback (map (λ p. p.high) bars)
          (omega (arith, enough, length-map (λ p. p.high) bars)) in
      let low_count =
        length-take_last lookback (map (λ p. p.low) bars)
          (omega (arith, enough, length-map (λ p. p.low) bars)) in
      let (upper, is_upper) =
        extreme-ok max_of (channel bars).highs (omega (arith, longer, high_count)) in
      let (lower, is_lower) =
        extreme-ok min_of (channel bars).lows (omega (arith, longer, low_count)) in
      let full : ltb (length (channel bars).highs) lookback ≡ false = ground (arith, high_count) in
      (
        upper,
        lower,
        is_upper,
        is_lower,
        rw (full, donchian_bar, is_upper, is_lower, channel-widen p bars) refl,
      )

  donchian_step :
      (payload : MarketPayload) (event : MarketEvent) (bars : List BarPayload)
      → 1 ≤ lookback
      → (actions : List Action) × (donchian_payload lookback payload event (channel bars)
          ≡ ok (actions, channel (bars ++ bar_of payload)))
  unfolding donchian_payload donchian_bar
  donchian_step (bar p) event bars longer =
      elim (Bool-cases (ltb (length (channel bars).highs) lookback)) [
        | inl warm ↦ rw (warm, donchian_bar, channel-widen p bars) (_, refl)
        | inr full ↦
            (let (upper, is_upper) =
                extreme-ok max_of (channel bars).highs (ground (arith, full, longer)) in
              let (lower, is_lower) =
                extreme-ok min_of (channel bars).lows
                  (ground (arith, full, longer, equally_many bars)) in
              rw (full, donchian_bar, is_upper, is_lower, channel-widen p bars) (_, refl))
      ]
  donchian_step (trade p) event bars longer = rw (append_nil bars) (_, refl)
  donchian_step (quote_l1 p) event bars longer = rw (append_nil bars) (_, refl)
  donchian_step (book_snapshot_l2 p) event bars longer = rw (append_nil bars) (_, refl)

  donchian_feed :
      (history : History) (bars : List BarPayload)
      → 1 ≤ lookback
      → (answers : List (List Action)) × (feed (donchian_breakout lookback) history (channel bars)
          ≡ ok (answers, channel (bars ++ bars_of history)))
  unfolding feed
  donchian_feed [] bars longer = rw (append_nil bars) ([], refl)
  donchian_feed ((event, account) ∷ history) bars longer =
      let (actions, stepped) = donchian_step event.payload event bars longer in
      let (answers, fed) = donchian_feed history (bars ++ bar_of event.payload) longer in
      rw (stepped, fed, append_assoc bars (bar_of event.payload) (bars_of history)) (_, refl)

  -- With a lookback of 1 or more, and after any history of at least as many bars, the breakout
  -- strategy answers a bar by comparing its close with the highest high and the lowest low of the
  -- last `lookback` bars before it.
  pub donchian_answers_by_last_bars :
      (history : History) (event : MarketEvent) (account : AccountSnapshot) (p : BarPayload)
      → event.payload ≡ bar p
      → 1 ≤ lookback
      → lookback ≤ length (bars_of history)
      → (answers : List (List Action)) × (memory : Channel) × (upper : Decimal) × (lower : Decimal)
        × (after : Channel) × (feed
              (donchian_breakout lookback)
              history
              (record { highs = []; lows = [] })
            ≡ ok (answers, memory))
        × (extreme max_of (take_last lookback (map (λ p. p.high) (bars_of history))) ≡ ok upper)
        × (extreme min_of (take_last lookback (map (λ p. p.low) (bars_of history))) ≡ ok lower)
        × ((donchian_breakout lookback).on_event event account memory
            ≡ ok (breakout lookback event p.close upper lower, after))
  unfolding donchian_payload
  donchian_answers_by_last_bars history event account p is_bar longer enough =
      let (answers, fed) = donchian_feed history [] longer in
      let (upper, lower, is_upper, is_lower, answered) =
        donchian_complete event p (bars_of history) longer enough in
      (
        answers,
        channel (bars_of history),
        upper,
        lower,
        channel (bars_of history ++ p ∷ []),
        rw (take_last-nil {A = Decimal} lookback) at fed,
        is_upper,
        is_lower,
        ap (λ payload. donchian_payload lookback payload event (channel (bars_of history))) is_bar
            ∙ answered,
      )
