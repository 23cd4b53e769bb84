-- ===== src/Tests/Engine.antt =====
-- The theorems on the reference engine at a run over three bars.
use strategy_adapter.Prelude.{ℕ, All, ◌≡◌, ◌≢◌, ◌↔◌, refl, some, none, List, [], map, ok}
use strategy_adapter.Prelude.Texts.{labelled}
use strategy_adapter.Prelude.Dict.{Dict}
use strategy_adapter.Decimal.{arithmetic, of_nat, Decimal}
use strategy_adapter.Contract.Errors.{Call}
use strategy_adapter.Contract.Models.{development}
use strategy_adapter.Domain.Actions.{buy}
use strategy_adapter.Domain.Account.{
  AccountSnapshot, PendingType, validate_fill, validate_position, validate_open_order,
}
use strategy_adapter.Runtime.Report.{RunReport}
use strategy_adapter.Adapters.Reference.Prices.{
  mark_price, market_price, limit_fill_price, apply_slippage,
}
use strategy_adapter.Adapters.Reference.Events.{
  key_of, insert_key, sort_keys, keys_beq, validate_events,
}
use strategy_adapter.Adapters.Reference.Settlement.{
  PendingOrder, update_position, resolve_target, resolve_limit, resolve_direct, resolve_by,
  resolve_fill, filled, fill_price, book_fill, settle_filled, settle_resolved, settle_order,
  settle_pending,
}
use strategy_adapter.Adapters.Reference.Commands.{
  validate_target, place_target, place_order, handle_action, handle_actions,
}
use strategy_adapter.Adapters.Reference.Run.{
  positions_of, market_value_from, take_snapshot, settle_event, process_event, process_events,
  expire_pending, last_item, make_report, run,
}
use strategy_adapter.Adapters.Reference.Replay.{replay, opening, fills_replay_accounts}
use strategy_adapter.Adapters.Reference.Records.{IsAccounted, orders-IsAccounted}
use strategy_adapter.Adapters.Reference.Exposure.{ShowsAllowed, open_targets-ShowsAllowed}
use strategy_adapter.Adapters.Reference.Limits.{IsLimitFill, limit_order_protected}
use strategy_adapter.Adapters.Reference.Ordering.{IsIncreasing, validate_events_iff}
use strategy_adapter.Tests.Data.{plan, manifest, events, bar_at, reference, clock, crossing}

-- The names that a run of the engine has to see through, for an `unfolding` line.
unfoldable pub engine_steps : Unit {0}
unfolding arithmetic labelled validate_fill validate_position validate_open_order mark_price
    market_price limit_fill_price apply_slippage insert_key sort_keys keys_beq validate_events
    update_position resolve_target resolve_limit resolve_direct resolve_by book_fill settle_filled
    settle_resolved settle_order settle_pending validate_target place_target place_order
    handle_action handle_actions positions_of market_value_from take_snapshot settle_event
    process_event process_events expire_pending last_item make_report run
engine_steps = tt

abbrev ran : Call RunReport
ran = run reference plan crossing events development clock 0

pub returns : (report : RunReport) × (ran ≡ ok report)
unfolding engine_steps
returns = (_, refl)

orders-IsAccounted_example : IsAccounted events returns.0
orders-IsAccounted_example =
    orders-IsAccounted reference plan crossing events development clock 0 returns.0 returns.1

fills_replay_accounts_example :
    let accounts = replay (opening reference) returns.0.fills in
    (returns.0.metrics.final_cash ≡ accounts.cash)
    × (last : AccountSnapshot) × (last_item returns.0.account_snapshots ≡ ok last)
    × (time : ℕ) × (marks : Dict Decimal) × (pending : List PendingOrder) × (take_snapshot time
          accounts marks pending
        ≡ ok last)
fills_replay_accounts_example =
    fills_replay_accounts reference plan crossing events development clock 0 returns.0 returns.1

abbrev dip : PendingOrder
dip = record {
  client_order_id = "mine";
  instrument_id = "ABC";
  order_type = PendingType.limit;
  submitted_at = 1;
  side = some buy;
  quantity = some (of_nat 2);
  target_quantity = none;
  limit_price = some (of_nat 95);
}

dip_fills : resolve_fill dip (bar_at 2 "e2" 90) [] ≡ ok (filled buy (of_nat 2) (of_nat 95))
unfolding engine_steps
dip_fills = refl

limit_order_protected_example :
    IsLimitFill
      (some buy)
      (some (of_nat 2))
      (some (of_nat 95))
      buy
      (of_nat 2)
      (fill_price reference PendingType.limit buy (of_nat 95))
limit_order_protected_example =
    limit_order_protected reference dip (bar_at 2 "e2" 90) [] buy (of_nat 2) (of_nat 95) refl
      dip_fills

validate_events_iff_example :
    (validate_events plan manifest events ≡ ok tt)
    ↔ ((events ≢ []) × IsIncreasing (map key_of events))
validate_events_iff_example = validate_events_iff plan manifest events

open_targets-ShowsAllowed_example : All (ShowsAllowed manifest) returns.0.account_snapshots
open_targets-ShowsAllowed_example =
    open_targets-ShowsAllowed reference plan crossing events development clock 0 returns.0 returns.1
