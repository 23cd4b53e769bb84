-- ===== src/Strategies/Maker/Quotes.antt =====
-- src/psrc/strategies/rule.py, src/psrc/adapters/reference.py: `L2ImbalanceMakerStrategy` at the
-- reference engine.
use strategy_adapter.Prelude.{
  ◌≡◌, refl, sym, ap, ◌∙◌, String, string_eq, Bool, true, false, List, [], ◌∷◌, ◌++◌, map, any,
  find?, contains, All-append, none, some, ok, Bool-cases, inl, inr, eq_self,
}
use strategy_adapter.Prelude.Dict.{Dict}
use strategy_adapter.Decimal.{Decimal, of_nat, arithmetic}
use strategy_adapter.Decimal.Sign.{gt_zero-is_zero}
use strategy_adapter.Contract.Errors.{Call}
use strategy_adapter.Contract.Models.{ExecutionPlan}
use strategy_adapter.Domain.Market.{
  MarketEvent, positive, BookSnapshotL2Payload, BookLevel, book_snapshot_l2,
}
use strategy_adapter.Domain.Account.{AccountSnapshot, PendingType}
use strategy_adapter.Domain.Actions.{
  Action, Side, validate_prices, validate_replace, ReplaceOrder, SubmitOrder, OrderType,
  TimeInForce, replace_order, submit_order,
}
use strategy_adapter.Adapters.Reference.Settlement.{PendingOrder}
use strategy_adapter.Adapters.Reference.Run.{open_order}
use strategy_adapter.Adapters.Reference.Commands.{
  Book, has_id, handle_action, handle_actions, place_order, replace, replace_found, replace_matched,
  direct_order, updated_order,
}
use strategy_adapter.Strategies.Common.{make_manifest}
use strategy_adapter.Strategies.Maker.{
  maker_manifest, maker_payload, l2_imbalance_maker, quote_side, quote_both, quote_book, skew,
  tick_of, bid_quote, ask_quote,
}
use strategy_adapter.Strategies.Maker.Pending.{
  Named, IsQuoteOf, IsQuoteAt, IsQuoted, live_iff_pending, any-append, find?-any, none-Named,
  replaced, any-replaced, Named-replaced, Named-kept, or_false, true_not_false,
}

module _ (plan : ExecutionPlan) (universe : List String) (event : MarketEvent)
    (account : AccountSnapshot) (marks : Dict Decimal)
    (known : contains universe event.instrument_id ≡ true) where
  -- A quote is made, and the engine takes it: then the orders of its name are this quote.
  abbrev Taken : String → Side → Decimal → String → String → Book → Type 1
  Taken id side price r refresh b =
      (a : Action) × (c : Book) × (quote_side event account id side price r refresh ≡ ok a)
      × (handle_action plan maker_manifest universe event account marks a b ≡ ok c)
      × IsQuoted id (IsQuoteAt event.instrument_id side price) b c

  replace_taken :
      (action : ReplaceOrder) (matched : PendingOrder) (b : Book)
      → find? (has_id action.client_order_id) b.pending ≡ some matched
      → matched.order_type ≡ PendingType.limit
      → (c : Book) × (handle_action plan maker_manifest universe event account marks
            (replace_order action)
            b
          ≡ ok c)
        × (c.pending ≡ replaced action matched b.pending)
  unfolding handle_action replace replace_found replace_matched
  replace_taken action matched b found limit =
      rw (found, replace_found, limit, replace_matched) (_, refl, refl)

  submit_taken :
      (action : SubmitOrder) (b : Book)
      → action.instrument_id ≡ event.instrument_id
      → action.order_type ≡ OrderType.limit
      → action.quantity ≡ of_nat 1
      → any (has_id action.client_order_id) b.pending ≡ false
      → (c : Book) × (handle_action plan maker_manifest universe event account marks
            (submit_order action)
            b
          ≡ ok c)
        × (c.pending ≡ b.pending ++ direct_order event action PendingType.limit ∷ [])
  unfolding handle_action place_order maker_manifest make_manifest arithmetic
  submit_taken action b here limit one fresh = rw (here, known, limit, fresh, one) (_, refl, refl)

  quote_live :
      (id : String) (side : Side) (price : Decimal) (r refresh : String) (b : Book)
      → positive price ≡ true
      → Named id (IsQuoteOf event.instrument_id side) b.pending
      → contains (map (λ o. o.client_order_id) account.open_orders) id ≡ true
      → any (has_id id) b.pending ≡ true
      → Taken id side price r refresh b
  unfolding quote_side validate_replace
  quote_live id side price r refresh b good quotes live pending =
      let (matched, found, same, quote) =
        find?-any id (IsQuoteOf event.instrument_id side) b.pending pending quotes in
      let action : ReplaceOrder = record {
        client_order_id = id;
        new_quantity = none;
        new_limit_price = some price;
        reason_code = refresh;
      } in
      let (c, taken, now) = replace_taken action matched b found quote.limit in
      let updated : IsQuoteAt event.instrument_id side price (updated_order action matched) = (
        record {
          limit = quote.limit;
          same_side = quote.same_side;
          one = quote.one;
          instrument = quote.instrument;
        },
        rw (gt_zero-is_zero price good) refl,
      ) in
      rw (live, good)
        (
          replace_order action,
          c,
          refl,
          taken,
          record {
            present = rw now (any-replaced action matched same id b.pending ∙ pending);
            quoted = rw now (Named-replaced action matched same _ b.pending updated);
            others = λ j apart. rw now (any-replaced action matched same j b.pending);
            kept = λ j P apart h. rw now (Named-kept action matched same j P b.pending apart h);
          },
        )

  quote_new :
      (id : String) (side : Side) (price : Decimal) (r refresh : String) (b : Book)
      → positive price ≡ true
      → contains (map (λ o. o.client_order_id) account.open_orders) id ≡ false
      → any (has_id id) b.pending ≡ false
      → Taken id side price r refresh b
  unfolding quote_side validate_prices arithmetic
  quote_new id side price r refresh b good absent fresh =
      let action : SubmitOrder = record {
        client_order_id = id;
        instrument_id = event.instrument_id;
        side = side;
        order_type = OrderType.limit;
        quantity = of_nat 1;
        limit_price = some price;
        stop_price = none;
        time_in_force = TimeInForce.day;
        reason_code = r;
      } in
      let (c, taken, now) = submit_taken action b refl refl refl fresh in
      let order : PendingOrder = direct_order event action PendingType.limit in
      let Quote : PendingOrder → Type 0 = IsQuoteAt event.instrument_id side price in
      let quote : Quote order =
        (record { limit = refl; same_side = refl; one = refl; instrument = refl }, refl) in
      rw (absent, good)
        (
          submit_order action,
          c,
          refl,
          taken,
          record {
            present = rw now (any-append id b.pending (order ∷ []) ∙ rw (fresh, eq_self id) refl);
            quoted = rw now (
                All-append (λ o. has_id id o ≡ true → Quote o) b.pending (order ∷ [])
                  (none-Named id Quote b.pending fresh) (λ here. quote, tt));
            others = λ j apart. rw now (
                any-append j b.pending (order ∷ [])
                ∙ rw apart (or_false (any (has_id j) b.pending)));
            kept = λ j P apart h. rw now (
                All-append (λ o. has_id j o ≡ true → P o) b.pending (order ∷ []) h
                  (λ here. absurd (true_not_false here apart), tt));
          },
        )

  quote_side-Taken :
      (id : String) (side : Side) (price : Decimal) (r refresh : String) (b : Book)
      → positive price ≡ true
      → Named id (IsQuoteOf event.instrument_id side) b.pending
      → contains (map (λ o. o.client_order_id) account.open_orders) id ≡ any (has_id id) b.pending
      → Taken id side price r refresh b
  quote_side-Taken id side price r refresh b good quotes shown =
      elim (Bool-cases (any (has_id id) b.pending)) [
        | inl live ↦ quote_live id side price r refresh b good quotes (shown ∙ live) live
        | inr fresh ↦ quote_new id side price r refresh b good (shown ∙ fresh) fresh
      ]

  -- The pending orders of the maker's names are quotes of this instrument, on their sides.
  abbrev pub QuotesOnly : Book → Type 0
  QuotesOnly b =
      Named "maker:bid" (IsQuoteOf event.instrument_id Side.buy) b.pending
      × Named "maker:ask" (IsQuoteOf event.instrument_id Side.sell) b.pending

  -- The engine takes all of the answer, and then a bid and an ask are pending at these prices, and
  -- no other order has their names.
  abbrev pub HoldsQuotes : Call (List Action) → Decimal → Decimal → Book → Type 0
  HoldsQuotes quotes bid_price ask_price b =
      (actions : List Action) × (c : Book) × (quotes ≡ ok actions)
      × (handle_actions plan maker_manifest universe event account marks actions b ≡ ok c)
      × (any (has_id "maker:bid") c.pending ≡ true)
      × (any (has_id "maker:ask") c.pending ≡ true)
      × Named "maker:bid" (IsQuoteAt event.instrument_id Side.buy bid_price) c.pending
      × Named "maker:ask" (IsQuoteAt event.instrument_id Side.sell ask_price) c.pending

  both_taken :
      (bid_price ask_price : Decimal) (b : Book)
      → positive bid_price ≡ true
      → positive ask_price ≡ true
      → account.open_orders ≡ map open_order b.pending
      → QuotesOnly b
      → HoldsQuotes (quote_both event account bid_price ask_price) bid_price ask_price b
  unfolding quote_both handle_actions
  both_taken bid_price ask_price b good_bid good_ask shown (bids, asks) =
      let live : (id : String)
          → contains (map (λ o. o.client_order_id) account.open_orders) id
            ≡ any (has_id id) b.pending =
        λ id.
          ap (λ os. contains (map (λ o. o.client_order_id) os) id) shown
          ∙ live_iff_pending id b.pending in
      let (bid, c, made, taken, quoted) =
        quote_side-Taken "maker:bid" Side.buy bid_price "quote.inventory_aware_bid"
          "quote.refresh_bid" b good_bid bids (live "maker:bid") in
      let (ask, d, made_ask, taken_ask, quoted_ask) =
        quote_side-Taken "maker:ask" Side.sell ask_price "quote.inventory_aware_ask"
          "quote.refresh_ask" c good_ask (quoted.kept "maker:ask" _ refl asks)
          (live "maker:ask" ∙ sym (quoted.others "maker:ask" refl)) in
      rw (made, made_ask)
        (
          bid ∷ ask ∷ [],
          d,
          refl,
          rw (taken, taken_ask) refl,
          quoted_ask.others "maker:bid" refl ∙ quoted.present,
          quoted_ask.present,
          quoted_ask.kept "maker:bid" _ refl quoted.quoted,
          quoted_ask.quoted,
        )

-- Let the event carry a book with two levels on each side whose skew is `s`, its instrument be one
-- of the run's, and the two prices that the maker quotes be positive; let the account show the
-- pending orders of the engine's book, those named maker:bid being limit orders to buy one unit of
-- this instrument, and those named maker:ask such orders to sell. Then the maker answers, the engine
-- takes the whole answer, and after it an order maker:bid and an order maker:ask are pending, and
-- all that have these names are limit orders for one unit of the instrument, to buy at the quoted
-- bid price and to sell at the quoted ask price.
pub maker_holds_quotes :
    (plan : ExecutionPlan) (universe : List String) (event : MarketEvent)
    (account : AccountSnapshot) (marks : Dict Decimal) (initialized : Bool) (b : Book)
    (book : BookSnapshotL2Payload) (second_bid second_ask : BookLevel)
    (deep_bids deep_asks : List BookLevel) (s : Decimal)
    → event.payload ≡ book_snapshot_l2 book
    → book.more_bids ≡ second_bid ∷ deep_bids
    → book.more_asks ≡ second_ask ∷ deep_asks
    → skew book ≡ ok s
    → (let tick = tick_of book.best_bid second_bid book.best_ask second_ask in
        (positive (bid_quote book.best_bid tick s) ≡ true)
        × (positive (ask_quote book.best_ask tick s) ≡ true))
    → contains universe event.instrument_id ≡ true
    → account.open_orders ≡ map open_order b.pending
    → Named "maker:bid" (IsQuoteOf event.instrument_id Side.buy) b.pending
    → Named "maker:ask" (IsQuoteOf event.instrument_id Side.sell) b.pending
    → (let tick = tick_of book.best_bid second_bid book.best_ask second_ask in
        (actions : List Action) × (c : Book) × (l2_imbalance_maker.on_event event account
            initialized
          ≡ ok (actions, true))
        × (handle_actions plan maker_manifest universe event account marks actions b ≡ ok c)
        × (any (has_id "maker:bid") c.pending ≡ true)
        × (any (has_id "maker:ask") c.pending ≡ true)
        × Named "maker:bid"
            (IsQuoteAt event.instrument_id Side.buy (bid_quote book.best_bid tick s))
            c.pending
        × Named "maker:ask"
            (IsQuoteAt event.instrument_id Side.sell (ask_quote book.best_ask tick s))
            c.pending)
unfolding maker_payload quote_book
maker_holds_quotes plan universe event account marks initialized b book second_bid second_ask
      deep_bids deep_asks s is_book two_bids two_asks skewed good known shown bids asks =
    let tick = tick_of book.best_bid second_bid book.best_ask second_ask in
    let (actions, c, made, taken, bid, ask, bids_at, asks_at) =
      both_taken plan universe event account marks known (bid_quote book.best_bid tick s)
        (ask_quote book.best_ask tick s) b (good.0) (good.1) shown (bids, asks) in
    (
      actions,
      c,
      ap (λ payload. maker_payload payload event account initialized) is_book
          ∙ ap (λ more. quote_book event account book more book.more_asks initialized) two_bids
          ∙ ap (λ more. quote_book event account book (second_bid ∷ deep_bids) more initialized)
              two_asks
          ∙ rw (skewed, made) refl,
      taken,
      bid,
      ask,
      bids_at,
      asks_at,
    )
