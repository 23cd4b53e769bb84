-- ===== src/Strategies/Twap/Slices.antt =====
-- src/psrc/strategies/rule.py: the orders of `TwapExecutionStrategy` over a history of events.
use Prim.Native.Nat.{min}
use strategy_adapter.Prelude.{
  ℕ, zero, suc, ◌+◌, ◌-◌, ◌≤◌, ◌≡◌, refl, sym, ap, ◌∙◌, String, true, List, [], ◌∷◌, ◌++◌, map,
  length, length-append, ok, leb, labelled, Bool-cases, inl, inr, arith, count_from,
}
use strategy_adapter.Decimal.{Decimal, of_nat, quotient}
use strategy_adapter.Contract.Errors.{Call}
use strategy_adapter.Domain.Market.{
  MarketEvent, MarketPayload, bar, trade, quote_l1, book_snapshot_l2, positive,
}
use strategy_adapter.Domain.Actions.{Action, SubmitOrder, submit_order, validate_prices}
use strategy_adapter.Strategies.Common.{wait}
use strategy_adapter.Strategies.Twap.{twap_execution, on_payload, next_slice}
use strategy_adapter.Strategies.Feeding.{History, feed, bar_of, bars_of, map-append}

module _ (total_quantity : Decimal) (slices : ℕ) where
  -- the orders among some actions
  abbrev pub order_of : Action → List SubmitOrder
  order_of (submit_order order) = order ∷ []
  order_of _ = []

  abbrev pub orders_of : List Action → List SubmitOrder
  orders_of [] = []
  orders_of (a ∷ actions) = order_of a ++ orders_of actions

  abbrev pub orders_in : List (List Action) → List SubmitOrder
  orders_in [] = []
  orders_in (actions ∷ answers) = orders_of actions ++ orders_in answers

  -- the identifiers of the orders in the answers to a history
  abbrev pub sent_ids : List (List Action) → List String
  sent_ids answers = map (λ order. order.client_order_id) (orders_in answers)

  -- how many orders are sent after these and this many bars
  abbrev pub sent_after : ℕ → ℕ → ℕ
  sent_after sent bars = min slices (sent + bars)

  abbrev ids_from : ℕ → ℕ → List String
  ids_from sent count = map (labelled "twap") (count_from (sent + 1) count)

  ids_from-append :
      (sent now later : ℕ)
      → ids_from sent now ++ ids_from (sent + now) later ≡ ids_from sent (now + later)
  ids_from-append sent zero later =
      ap (λ (n : ℕ). ids_from n later) (omega arith) ∙ ap (ids_from sent) (omega arith)
  ids_from-append sent (suc now) later =
      ap (λ ids. labelled "twap" (sent + 1) ∷ ids)
        (ap (λ (n : ℕ). ids_from (sent + 1) now ++ ids_from n later) (omega arith)
          ∙ ids_from-append (sent + 1) now later)
      ∙ ap (ids_from sent) (let e : suc (now + later) ≡ suc now + later = omega arith in e)

  ids_from-chain :
      (a b c : ℕ) → a ≤ b → b ≤ c → ids_from a (b - a) ++ ids_from b (c - b) ≡ ids_from a (c - a)
  ids_from-chain a b c h k =
      ap (λ (n : ℕ). ids_from a (b - a) ++ ids_from n (c - b)) (omega arith)
      ∙ ids_from-append a (b - a) (c - b)
      ∙ ap (ids_from a) (omega arith)

  -- Two stages of a history count as one.
  sent_after-again :
      (sent now later : ℕ) → sent_after (sent_after sent now) later ≡ sent_after sent (now + later)
  sent_after-again sent now later = omega arith

  sent_after-le : (sent now : ℕ) → sent ≤ slices → sent ≤ sent_after sent now
  sent_after-le sent now h = omega arith

  sent_after-bounded : (sent now : ℕ) → sent_after sent now ≤ slices
  sent_after-bounded sent now = omega arith

  module _ (fits : positive (quotient total_quantity (of_nat slices)) ≡ true) where
    -- The answer sends what the memory counts, from `sent` on.
    abbrev Sends : ℕ → ℕ → Call (List Action × ℕ) → Type 0
    Sends sent bars result =
        (actions : List Action) × (result ≡ ok (actions, sent_after sent bars))
        × (map (λ order. order.client_order_id) (orders_of actions)
            ≡ ids_from sent (sent_after sent bars - sent))

    wait-Sends :
        (sent : ℕ) (reason_code explanation : String)
        → sent ≤ slices
        → Sends sent 0 (ok (wait reason_code explanation, sent))
    wait-Sends sent r e h =
        let same : sent_after sent 0 ≡ sent = omega arith in
        let none_more : sent - sent ≡ 0 = omega arith in rw (same, none_more) (_, refl, refl)

    twap_step_bar :
        (event : MarketEvent) (sent : ℕ)
        → sent ≤ slices
        → Sends sent 1 (next_slice total_quantity slices event sent)
    unfolding next_slice validate_prices
    twap_step_bar event sent h = elim (Bool-cases (leb slices sent)) [
      | inl complete ↦
          (let same : sent_after sent 1 ≡ sent = ground (arith, complete, h) in
            let none_more : sent - sent ≡ 0 = omega arith in
            rw (complete, same, none_more) (_, refl, refl))
      | inr open_ ↦
          (let one : sent_after sent 1 ≡ sent + 1 = ground (arith, open_, h) in
            let one_more : sent + 1 - sent ≡ 1 = omega arith in
            rw (open_, fits, one, one_more) (_, refl, refl))
    ]

    twap_step :
        (payload : MarketPayload) (event : MarketEvent) (sent : ℕ)
        → sent ≤ slices
        → Sends sent (length (bar_of payload)) (on_payload total_quantity slices payload event sent)
    unfolding on_payload
    twap_step (bar p) event sent h = twap_step_bar event sent h
    twap_step (trade p) event sent h = wait-Sends sent _ _ h
    twap_step (quote_l1 p) event sent h = wait-Sends sent _ _ h
    twap_step (book_snapshot_l2 p) event sent h = wait-Sends sent _ _ h

    twap_feed :
        (history : History) (sent : ℕ)
        → sent ≤ slices
        → (answers : List (List Action)) × (feed (twap_execution total_quantity slices) history sent
            ≡ ok (answers, sent_after sent (length (bars_of history))))
          × (sent_ids answers ≡ ids_from sent (sent_after sent (length (bars_of history)) - sent))
    unfolding feed
    twap_feed [] sent h =
        let same : sent_after sent 0 ≡ sent = omega arith in
        let none_more : sent - sent ≡ 0 = omega arith in rw (same, none_more) ([], refl, refl)
    twap_feed ((event, account) ∷ history) sent h =
        let now = length (bar_of event.payload) in
        let middle = sent_after sent now in
        let (actions, stepped, first) = twap_step event.payload event sent h in
        let (answers, fed, later) = twap_feed history middle (sent_after-bounded sent now) in
        let total : sent_after middle (length (bars_of history))
            ≡ sent_after sent (length (bars_of ((event, account) ∷ history))) =
          sent_after-again sent now (length (bars_of history))
          ∙ ap (sent_after sent) (sym (length-append (bar_of event.payload) (bars_of history))) in
        (
          actions ∷ answers,
          rw (stepped, fed) (ap (λ (n : ℕ). ok (actions ∷ answers, n)) total),
          map-append (λ order. order.client_order_id) (orders_of actions) (orders_in answers)
              ∙ ap (λ ids. ids ++ sent_ids answers) first
              ∙ ap (λ ids. ids_from sent (middle - sent) ++ ids) later
              ∙ ids_from-chain sent middle _ (sent_after-le sent now h)
                  (sent_after-le middle (length (bars_of history)) (sent_after-bounded sent now))
              ∙ ap (λ (n : ℕ). ids_from sent (n - sent)) total,
        )

    -- When a slice is a positive quantity, the execution strategy answers any history from its
    -- start, and its orders over the history are numbered from 1 on, one for each bar until all
    -- slices are sent: as many as there are bars, and at most `slices`.
    pub twap_sends_each_slice :
        (history : History)
        → (answers : List (List Action)) × (sent : ℕ) × (feed
              (twap_execution total_quantity slices)
              history
              0
            ≡ ok (answers, sent))
          × (sent ≡ min slices (length (bars_of history)))
          × (sent_ids answers ≡ map (labelled "twap") (count_from 1 sent))
    twap_sends_each_slice history =
        let (answers, fed, ids) = twap_feed history 0 (omega arith) in
        let count = sent_after 0 (length (bars_of history)) in
        (
          answers,
          count,
          fed,
          omega arith,
          ids ∙ ap (λ (n : ℕ). ids_from 0 n) (let e : count - 0 ≡ count = omega arith in e),
        )
